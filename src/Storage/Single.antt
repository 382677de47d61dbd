-- ===== src/Storage/Single.antt =====
-- How many rows a query keeps, and the query that keeps one row: the one just inserted.
use eventsphere.Prelude.{
  ℕ, ◌+◌, ◌<◌, ◌≡◌, refl, ap, Bool, true, ◌&&◌, ◌==◌, ==_refl, ==_iff, none, some, List, [], ◌∷◌,
  if◌then◌else◌, inl, inr, Bool-cases, arith,
}
use eventsphere.Prelude.Int.{ℤ, pos, int_laws}
use eventsphere.Prelude.Lists.{length, select, total}
use eventsphere.Storage.Interface.{Storage, Listed}
use eventsphere.Storage.Listing.{Listed-select}
use eventsphere.Storage.Totals.{total-insert, total-update}

-- 1 for a row that a query keeps.
abbrev counts : {V : Type 0} → (V → Bool) → V → ℤ
counts p row = if p row then pos 1 else pos 0

total-counts :
    {V : Type 0} (p : V → Bool) (rows : List V)
    → total (counts p) rows ≡ pos (length (select p rows))
total-counts p [] = refl
total-counts p (row ∷ rest) = elim (Bool-cases (p row)) [
  | inl keep ↦ rw keep (grind (int_laws, total-counts p rest))
  | inr drop ↦ rw drop (grind (int_laws, total-counts p rest))
]

select_both :
    {V : Type 0} (p q : V → Bool) (rows : List V)
    → select (λ row. p row && q row) rows ≡ select q (select p rows)
select_both p q [] = refl
select_both p q (row ∷ rest) = elim (Bool-cases (p row)) [
  | inl keep ↦ elim (Bool-cases (q row)) [
    | inl also ↦ rw (keep, also) (ap (λ l. row ∷ l) (select_both p q rest))
    | inr drop ↦ rw (keep, drop) (select_both p q rest)
  ]
  | inr drop ↦ rw drop (select_both p q rest)
]

module _ ⦃S : Storage⦄ where
  pub length-select-insert :
      {V : Type 0} (p : ℕ × V → Bool) (t : S.Table V) (k : ℕ) (v : V)
      → S.get t k ≡ none
      → length (select p (S.rows (S.put t k v)))
        ≡ (if p (k, v) then 1 else 0) + length (select p (S.rows t))
  length-select-insert p t k v fresh = elim (Bool-cases (p (k, v))) [
    | inl keep ↦ rw keep (
        grind (
          int_laws,
          total-counts p (S.rows t),
          total-counts p (S.rows (S.put t k v)),
          total-insert (counts p) t k v fresh,
          keep,
        ))
    | inr drop ↦ rw drop (
        grind (
          int_laws,
          total-counts p (S.rows t),
          total-counts p (S.rows (S.put t k v)),
          total-insert (counts p) t k v fresh,
          drop,
        ))
  ]

  pub length-select-update :
      {V : Type 0} (p : ℕ × V → Bool) (t : S.Table V) (k : ℕ) (old v : V)
      → S.get t k ≡ some old
      → p (k, old) ≡ p (k, v)
      → length (select p (S.rows (S.put t k v))) ≡ length (select p (S.rows t))
  length-select-update p t k old v stored same =
      let unmoved : counts p (k, old) ≡ counts p (k, v) =
        ap (λ b. if b then pos 1 else pos 0) same in
      grind (
        int_laws,
        total-counts p (S.rows t),
        total-counts p (S.rows (S.put t k v)),
        total-update (counts p) t k old v stored,
        unmoved,
      )

  -- A query that kept no row keeps one row when it is inserted.
  module _ {V : Type 0} (p : ℕ × V → Bool) (t : S.Table V) (k : ℕ) (v : V)
      (fresh : S.get t k ≡ none) (kept : p (k, v) ≡ true)
      (others : length (select p (S.rows t)) ≡ 0) where
    one_row : length (select p (S.rows (S.put t k v))) ≡ 1
    one_row = grind (
      int_laws,
      total-counts p (S.rows t),
      total-counts p (S.rows (S.put t k v)),
      total-insert (counts p) t k v fresh,
      kept,
    )

    abbrev with_key : ℕ × V → Bool
    with_key row = p row && (row.0 == k)

    its_row :
        1 + length (select with_key (S.rows t)) ≡ length (select with_key (S.rows (S.put t k v)))
    its_row = grind (
      int_laws,
      total-counts with_key (S.rows t),
      total-counts with_key (S.rows (S.put t k v)),
      total-insert (counts with_key) t k v fresh,
      kept,
      ==_refl k,
    )

    only_in :
        (found : List (ℕ × V))
        → length found ≡ 1
        → 0 < length (select (λ row. row.0 == k) found)
        → Listed (λ j. S.get (S.put t k v) j) found
        → found ≡ (k, v) ∷ []
    only_in [] one some_row listed = absurd (omega arith)
    only_in ((j, w) ∷ row ∷ rest) one some_row listed = absurd (omega arith)
    only_in ((j, w) ∷ []) one some_row (here, once, rest) = elim (Bool-cases (j == k)) [
      | inl same ↦
          let key : j ≡ k = (==_iff j k).0 same in
          let its : w ≡ v = ground (arith, S.get-put t k j v, ==_refl k) in cc (key, its)
      | inr other ↦ let none_left = rw other at some_row in absurd (omega arith)
    ]

    pub only_row : select p (S.rows (S.put t k v)) ≡ (k, v) ∷ []
    only_row =
        let found : List (ℕ × V) = select p (S.rows (S.put t k v)) in
        let both = ap length (select_both p (λ row. row.0 == k) (S.rows (S.put t k v))) in
        let more = its_row in
        only_in found one_row (omega arith) (Listed-select p _ _ (S.rows-Listed (S.put t k v)))
