-- ===== src/Storage/Totals.antt =====
-- Sums over the rows of a table, under INSERT and UPDATE.
use mathlib.Core.Logic.{∥∥₁_elim}
use mathlib.Core.List.{Perm, Permᴰ}
use eventsphere.Prelude.{ℕ, ◌≡◌, refl, ◌∙◌, ap, none, some, List}
use eventsphere.Prelude.Int.{ℤ, ◌+ℤ◌, int_laws}
use eventsphere.Prelude.Lists.{total}
use eventsphere.Storage.Interface.{Storage}

ℤ-set : IsSet ℤ
ℤ-set = hlevel

total-Permᴰ : {A : Type 0} (w : A → ℤ) {xs ys : List A} → Permᴰ xs ys → total w xs ≡ total w ys
total-Permᴰ w Permᴰ.nil = refl
total-Permᴰ w (Permᴰ.cons e p) = cc (ap w e, total-Permᴰ w p)
total-Permᴰ w (Permᴰ.swap {a = a} {b = b} {l = l} e f) = rw (← e, ← f) (omega int_laws)
total-Permᴰ w (Permᴰ.trans p q) = total-Permᴰ w p ∙ total-Permᴰ w q

pub total-perm : {A : Type 0} (w : A → ℤ) {xs ys : List A} → Perm xs ys → total w xs ≡ total w ys
total-perm w p = ∥∥₁_elim p (ℤ-set _ _) (total-Permᴰ w)

module _ ⦃S : Storage⦄ {V : Type 0} where
  pub total-insert :
      (w : ℕ × V → ℤ) (t : S.Table V) (k : ℕ) (v : V)
      → S.get t k ≡ none
      → total w (S.rows (S.put t k v)) ≡ w (k, v) +ℤ total w (S.rows t)
  total-insert w t k v h = total-perm w (S.rows-insert t k v h)

  pub total-update :
      (w : ℕ × V → ℤ) (t : S.Table V) (k : ℕ) (old v : V)
      → S.get t k ≡ some old
      → w (k, old) +ℤ total w (S.rows (S.put t k v)) ≡ w (k, v) +ℤ total w (S.rows t)
  total-update w t k old v h = total-perm w (S.rows-update t k old v h)
