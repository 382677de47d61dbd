-- ===== src/Pagination/Cover.antt =====
-- The pages of a listing.
use eventsphere.Prelude.{
  sym, ◌-◌, ◌∙◌, refl, ap, zero, ◌++◌, suc, ◌∷◌, ◌≡◌, [], List, ℕ, arith, ◌+◌, ◌*◌, ◌≤◌, ◌<◌,
}
use eventsphere.Pagination.{slice, create, offset, Page, total_pages}
use eventsphere.Prelude.Lists.{drop, length, take}

-- `total_pages` is the least number of pages that hold all items: they are enough, and one page
-- fewer would not be, for a page size that is not zero.
pub total_pages_covers {ℓ} :
    {A : Type ℓ} (p : Page A)
    → 0 < p.page_size
    → (p.total ≤ total_pages p * p.page_size)
      × (total_pages p * p.page_size < p.total + p.page_size)
unfolding total_pages
total_pages_covers p h = ground arith

module _ {ℓ} {A : Type ℓ} where
  take-nil : (n : ℕ) → take {A = A} n [] ≡ []
  take-nil zero = refl
  take-nil (suc n) = refl

  take-add : (a b : ℕ) (xs : List A) → take (a + b) xs ≡ take a xs ++ take b (drop a xs)
  take-add zero b xs = ap (λ n. take n xs) (omega arith)
  take-add (suc a) b [] = take-nil (suc a + b) ∙ sym (take-nil b)
  take-add (suc a) b (x ∷ xs) =
      let e : suc a + b ≡ suc (a + b) = omega arith in
      ap (λ n. take n (x ∷ xs)) e ∙ ap (λ l. x ∷ l) (take-add a b xs)

  take-all : (n : ℕ) (xs : List A) → length xs ≤ n → take n xs ≡ xs
  take-all zero [] h = refl
  take-all zero (x ∷ xs) h = absurd (omega arith)
  take-all (suc n) [] h = refl
  take-all (suc n) (x ∷ xs) h = ap (λ l. x ∷ l) (take-all n xs (omega arith))

  -- The items of the pages 1 to n, one page after the other.
  abbrev pub pages : ℕ → ℕ → List A → List A
  pages size zero xs = []
  pages size (suc n) xs = pages size n xs ++ slice (record { page = suc n; page_size = size }) xs

  pages-eq-take : (size n : ℕ) (xs : List A) → pages size n xs ≡ take (n * size) xs
  unfolding offset
  pages-eq-take size zero xs = let e : 0 ≡ 0 * size = omega arith in ap (λ n. take n xs) e
  pages-eq-take size (suc n) xs =
      let before : (suc n - 1) * size ≡ n * size = grind arith in
      let all : suc n * size ≡ n * size + size = grind arith in
      rw (pages-eq-take size n xs, before, all) (sym (take-add (n * size) size xs))

  -- The pages 1 to `total_pages` of a listing, one after the other, are the whole listing: no item
  -- is missing and none is shown twice.
  pub pages_cover :
      (size : ℕ) (xs : List A)
      → 0 < size
      → pages size (total_pages (create xs (length xs) (record { page = 1; page_size = size }))) xs
        ≡ xs
  pages_cover size xs h =
      let listing : Page A = create xs (length xs) (record { page = 1; page_size = size }) in
      pages-eq-take size (total_pages listing) xs
      ∙ take-all (total_pages listing * size) xs (total_pages_covers listing h).0

  -- The pages 1 to `total_pages` of a listing, one after the other, are the whole listing: no item
  -- is missing and none is shown twice. One page fewer would not hold them, for a page size that
  -- is not zero.
  pub listing_paged :
      (size : ℕ) (xs : List A)
      → 0 < size
      → (pages size (total_pages (create xs (length xs) (record { page = 1; page_size = size }))) xs
          ≡ xs)
        × (total_pages (create xs (length xs) (record { page = 1; page_size = size })) * size
            < length xs + size)
  listing_paged size xs h =
      let listing : Page A = create xs (length xs) (record { page = 1; page_size = size }) in
      (pages_cover size xs h, (total_pages_covers listing h).1)
