-- ===== src/Prelude/Lists.antt =====
-- Lists measured by native numbers, and sums over the rows of a table.
use Prim.Native.Nat.{ℕ, zero, suc}
use mathlib.Core.Bool.{Bool}
use mathlib.Core.List.{List, [], ◌∷◌}
use eventsphere.Prelude.Tests.{if◌then◌else◌}
use eventsphere.Prelude.Int.{ℤ, pos, ◌+ℤ◌}

module _ {ℓ} {A : Type ℓ} where
  abbrev pub length : List A → ℕ
  length [] = 0
  length (x ∷ xs) = suc (length xs)

  abbrev pub take : ℕ → List A → List A
  take zero xs = []
  take (suc n) [] = []
  take (suc n) (x ∷ xs) = x ∷ take n xs

  abbrev pub drop : ℕ → List A → List A
  drop zero xs = xs
  drop (suc n) [] = []
  drop (suc n) (x ∷ xs) = drop n xs

  -- The rows that a WHERE clause keeps.
  abbrev pub select : (A → Bool) → List A → List A
  select p [] = []
  select p (x ∷ xs) = let rest = select p xs in if p x then x ∷ rest else rest

  abbrev pub total : (A → ℤ) → List A → ℤ
  total w [] = pos 0
  total w (x ∷ xs) = w x +ℤ total w xs
