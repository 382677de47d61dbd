-- ===== src/Storage/Listing.antt =====
-- What a query keeps of the rows of a table: stored rows, each once.
use eventsphere.Prelude.{
  ℕ, zero, suc, ◌≡◌, sym, ◌∙◌, Bool, false, Option, List, [], ◌∷◌, ◌==◌, Bool-cases, inl, inr,
}
use eventsphere.Prelude.Lists.{take, select}
use eventsphere.Storage.Interface.{Absent, Listed}

module _ {V : Type 0} where
  pub Listed-agree :
      (f g : ℕ → Option V) (k : ℕ) (t : List (ℕ × V))
      → ((j : ℕ) → (j == k) ≡ false → f j ≡ g j)
      → Absent k t
      → Listed f t
      → Listed g t
  Listed-agree f g k [] agree absent h = tt
  Listed-agree f g k ((j, v) ∷ t) agree (ne, absent) (here, once, rest) =
      (sym (agree j ne) ∙ here, once, Listed-agree f g k t agree absent rest)

  Absent-select : (p : ℕ × V → Bool) (k : ℕ) (t : List (ℕ × V)) → Absent k t → Absent k (select p t)
  Absent-select p k [] h = tt
  Absent-select p k ((j, v) ∷ t) (first, rest) = elim (Bool-cases (p (j, v))) [
    | inl keep ↦ rw keep (first, Absent-select p k t rest)
    | inr drop ↦ rw drop (Absent-select p k t rest)
  ]

  pub Listed-select :
      (p : ℕ × V → Bool) (f : ℕ → Option V) (t : List (ℕ × V)) → Listed f t → Listed f (select p t)
  Listed-select p f [] h = tt
  Listed-select p f ((j, v) ∷ t) (here, once, rest) = elim (Bool-cases (p (j, v))) [
    | inl keep ↦ rw keep (here, Absent-select p j t once, Listed-select p f t rest)
    | inr drop ↦ rw drop (Listed-select p f t rest)
  ]

  Absent-take : (n k : ℕ) (t : List (ℕ × V)) → Absent k t → Absent k (take n t)
  Absent-take zero k t h = tt
  Absent-take (suc n) k [] h = tt
  Absent-take (suc n) k ((j, v) ∷ t) (first, rest) = (first, Absent-take n k t rest)

  pub Listed-take : (n : ℕ) (f : ℕ → Option V) (t : List (ℕ × V)) → Listed f t → Listed f (take n t)
  Listed-take zero f t h = tt
  Listed-take (suc n) f [] h = tt
  Listed-take (suc n) f ((j, v) ∷ t) (here, once, rest) =
      (here, Absent-take n j t once, Listed-take n f t rest)
