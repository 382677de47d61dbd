-- ===== src/Api/Integrity/Triples.antt =====
-- Conditions before and after an action: what it needs, what it gives when it returns, and what holds
-- when it raises.
use eventsphere.Prelude.{none, some, Option, ◌≡◌, refl}
use eventsphere.Errors.{Result, ok, err, Error, Action, continue, ◌>>=◌, or_raise, pure}

module _ {S : Type 0} where
  abbrev pub After : {A : Type 0} → (A → S → Type 0) → (S → Type 0) → Result A × S → Type 0
  After good bad (ok a, s) = good a s
  After good bad (err e, s) = bad s

  pub record Triple {A : Type 0} (before : S → Type 0) (m : Action S A) (good : A → S → Type 0)
      (bad : S → Type 0) : Type 0 where
    pub runs : (s : S) → before s → After good bad (m s)

  continue-After :
      {A B : Type 0} (middle : A → S → Type 0) (good : B → S → Type 0) (bad : S → Type 0)
      (out : Result A × S) (f : A → Action S B)
      → After middle bad out
      → ((a : A) → Triple (middle a) (f a) good bad)
      → After good bad (continue out f)
  continue-After middle good bad (ok a, s) f h next = (next a).runs s h
  continue-After middle good bad (err e, s) f h next = h

  pub then-Triple :
      {A B : Type 0} (before : S → Type 0) (middle : A → S → Type 0) (good : B → S → Type 0)
      (bad : S → Type 0) (m : Action S A) (f : A → Action S B)
      → Triple before m middle bad
      → ((a : A) → Triple (middle a) (f a) good bad)
      → Triple before (m >>= f) good bad
  then-Triple before middle good bad m f first next = record {
    runs = λ s h. continue-After middle good bad (m s) f (first.runs s h) next;
  }

  -- `or_raise` of a look-up tells what it has found.
  pub or_raise-Triple :
      {A : Type 0} (before bad : S → Type 0) (look : S → Option A) (e : Error)
      → ((s : S) → before s → bad s)
      → Triple before (λ s. or_raise (look s) e s) (λ a s. before s × (look s ≡ some a)) bad
  or_raise-Triple {A = A} before bad look e gives = record { runs = λ s h. found s h (look s) refl }
    where
      found :
          (s : S)
          → before s
          → (o : Option A) → look s ≡ o
          → After (λ a t. before t × (look t ≡ some a)) bad (or_raise o e s)
      found s h none same = gives s h
      found s h (some a) same = (h, same)

  -- A query leaves the state.
  pub query-Triple :
      {A : Type 0} (before bad : S → Type 0) (f : S → Result A)
      → ((s : S) → before s → bad s)
      → Triple before (λ s. (f s, s)) (λ _. before) bad
  query-Triple {A = A} before bad f gives = record { runs = λ s h. asked s h (f s) }
    where
      asked : (s : S) → before s → (r : Result A) → After (λ _. before) bad (r, s)
      asked s h (ok a) = h
      asked s h (err e) = gives s h

  -- A condition may be replaced by a stronger one.
  pub stronger-Triple :
      {A : Type 0} (before before' : S → Type 0) (m : Action S A) (good : A → S → Type 0)
      (bad : S → Type 0)
      → ((s : S) → before' s → before s)
      → Triple before m good bad
      → Triple before' m good bad
  stronger-Triple before before' m good bad gives t = record { runs = λ s h. t.runs s (gives s h) }

  pub pure-Triple :
      {A : Type 0} (before : S → Type 0) (a : A) (bad : S → Type 0)
      → Triple before (pure a) (λ _. before) bad
  pure-Triple before a bad = record { runs = λ s h. h }
