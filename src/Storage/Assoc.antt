-- ===== src/Storage/Assoc.antt =====
-- A store made of association lists: it shows that the interface can be met, and runs the tests.
use mathlib.Core.Path.{subst}
use mathlib.Core.List.{Perm}
use mathlib.Core.List.Perm
use eventsphere.Prelude.{
  ℕ, ◌<◌, ◌+◌, ◌≡◌, refl, false, ==_refl, Option, none, some, List, [], ◌∷◌, arith, ◌==◌,
  if◌then◌else◌, Bool-cases, inl, inr, ==_iff,
}
use eventsphere.Storage.Interface.{Storage, Absent, Listed}
use eventsphere.Storage.Listing.{Listed-agree}

module _ {V : Type 0} where
  abbrev pub lookup : ℕ → List (ℕ × V) → Option V
  lookup k [] = none
  lookup k ((j, v) ∷ t) = if j == k then some v else lookup k t

  abbrev pub insert : ℕ → V → List (ℕ × V) → List (ℕ × V)
  insert k v [] = (k, v) ∷ []
  insert k v ((j, w) ∷ t) = if j == k then (k, v) ∷ t else (j, w) ∷ insert k v t

  abbrev pub remove : ℕ → List (ℕ × V) → List (ℕ × V)
  remove k [] = []
  remove k ((j, w) ∷ t) = let rest = remove k t in if j == k then rest else (j, w) ∷ rest

  pub lookup-insert :
      (k j : ℕ) (v : V) (t : List (ℕ × V))
      → lookup j (insert k v t) ≡ (if k == j then some v else lookup j t)
  lookup-insert k j v [] = refl
  lookup-insert k j v ((i, w) ∷ t) = ground (arith, lookup-insert k j v t)

  pub lookup-remove :
      (k j : ℕ) (t : List (ℕ × V)) → lookup j (remove k t) ≡ (if k == j then none else lookup j t)
  lookup-remove k j [] = ground arith
  lookup-remove k j ((i, w) ∷ t) = ground (arith, lookup-remove k j t)

  pub insert_new-perm :
      (k : ℕ) (v : V) (t : List (ℕ × V)) → lookup k t ≡ none → Perm (insert k v t) ((k, v) ∷ t)
  insert_new-perm k v [] h = Perm.refl _
  insert_new-perm k v ((i, w) ∷ t) h = elim (Bool-cases (i == k)) [
    | inl e ↦ absurd (cc (rw e at h))
    | inr e ↦ rw e (
        Perm.trans (Perm.cons (i, w) (insert_new-perm k v t (rw e at h)))
          (Perm.swap (k, v) (i, w) t))
  ]

  pub insert_old-perm :
      (k : ℕ) (old v : V) (t : List (ℕ × V))
      → lookup k t ≡ some old
      → Perm ((k, old) ∷ insert k v t) ((k, v) ∷ t)
  insert_old-perm k old v [] h = absurd (cc)
  insert_old-perm k old v ((i, w) ∷ t) h = elim (Bool-cases (i == k)) [
    | inl e ↦
        let same_key : i ≡ k = (==_iff i k).0 e in
        let same_row : w ≡ old = ground arith in
        rw (e, same_key, same_row) (Perm.swap (k, v) (k, old) t)
    | inr e ↦
        let moved : Perm ((k, old) ∷ insert k v t) ((k, v) ∷ t) =
          insert_old-perm k old v t (rw e at h) in
        rw e (
          Perm.trans (Perm.swap (i, w) (k, old) _)
            (Perm.trans (Perm.cons (i, w) moved) (Perm.swap (k, v) (i, w) t)))
  ]

module _ {V : Type 0} where
  -- Each key stands once.
  abbrev pub Keys : List (ℕ × V) → Type 0
  Keys [] = Unit
  Keys ((k, v) ∷ rest) = Absent k rest × Keys rest

  insert-Absent :
      (k j : ℕ) (v : V) (t : List (ℕ × V)) → (k == j) ≡ false → Absent j t → Absent j (insert k v t)
  insert-Absent k j v [] ne h = (ne, tt)
  insert-Absent k j v ((i, w) ∷ t) ne (first, rest) = elim (Bool-cases (i == k)) [
    | inl same ↦ rw same (ne, rest)
    | inr other ↦ rw other (first, insert-Absent k j v t ne rest)
  ]

  pub insert-Keys : (k : ℕ) (v : V) (t : List (ℕ × V)) → Keys t → Keys (insert k v t)
  insert-Keys k v [] h = (tt, tt)
  insert-Keys k v ((i, w) ∷ t) (first, rest) = elim (Bool-cases (i == k)) [
    | inl same ↦
        let e : i ≡ k = (==_iff i k).0 same in rw same (subst (λ x. Absent x t) e first, rest)
    | inr other ↦
        rw other (insert-Absent k i v t (ground (arith, other)) first, insert-Keys k v t rest)
  ]

  remove-Absent : (k j : ℕ) (t : List (ℕ × V)) → Absent j t → Absent j (remove k t)
  remove-Absent k j [] h = tt
  remove-Absent k j ((i, w) ∷ t) (first, rest) = elim (Bool-cases (i == k)) [
    | inl same ↦ rw same (remove-Absent k j t rest)
    | inr other ↦ rw other (first, remove-Absent k j t rest)
  ]

  pub remove-Keys : (k : ℕ) (t : List (ℕ × V)) → Keys t → Keys (remove k t)
  remove-Keys k [] h = tt
  remove-Keys k ((i, w) ∷ t) (first, rest) = elim (Bool-cases (i == k)) [
    | inl same ↦ rw same (remove-Keys k t rest)
    | inr other ↦ rw other (remove-Absent k i t first, remove-Keys k t rest)
  ]

  pub Keys-Listed : (t : List (ℕ × V)) → Keys t → Listed (λ k. lookup k t) t
  Keys-Listed [] h = tt
  Keys-Listed ((k, v) ∷ t) (once, rest) =
      let here : lookup k ((k, v) ∷ t) ≡ some v = ground (arith, ==_refl k) in
      (
        here,
        once,
        Listed-agree (λ j. lookup j t) (λ j. lookup j ((k, v) ∷ t)) k t (λ j ne. ground (arith, ne))
            once (Keys-Listed t rest),
      )

pub lt-add_one : (v : ℕ) → v < v + 1
lt-add_one v = omega arith

instance abbrev pub assoc : Storage
assoc = record {
  Table = λ V. (t : List (ℕ × V)) × Keys t;
  empty = ([], tt);
  get = λ t k. lookup k t.0;
  put = λ t k v. (insert k v t.0, insert-Keys k v t.0 t.1);
  delete = λ t k. (remove k t.0, remove-Keys k t.0 t.1);
  rows = λ t. t.0;
  get-empty = λ k. refl;
  rows-empty = refl;
  get-put = λ t k j v. lookup-insert k j v t.0;
  get-delete = λ t k j. lookup-remove k j t.0;
  rows-insert = λ t k v h. insert_new-perm k v t.0 h;
  rows-update = λ t k old v h. insert_old-perm k old v t.0 h;
  rows-Listed = λ t. Keys-Listed t.0 t.1;
  first_version = 1;
  next_version = λ v. v + 1;
  lt-next_version = lt-add_one;
}
