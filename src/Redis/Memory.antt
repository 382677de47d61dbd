-- ===== src/Redis/Memory.antt =====
-- A Redis made of a function from keys to values with the time at which they expire.
use eventsphere.Prelude.{
  ℕ, ◌+◌, ◌≡◌, refl, Option, none, some, arith, ltb, if◌then◌else◌, inl, inr, Bool-cases,
}
use eventsphere.Redis.Keys.{Key, same_key}
use eventsphere.Redis.Interface.{Redis}

-- A value, and the first time at which it is gone; `none` stands for a value that stays.
abbrev pub Cell : Type 0
Cell = Option (ℕ × Option ℕ)

abbrev pub live : ℕ → Cell → Option ℕ
live now none = none
live now (some (v, none)) = some v
live now (some (v, some end)) = if ltb now end then some v else none

abbrev pub bump_cell : ℕ → Cell → Cell
bump_cell now none = some (1, none)
bump_cell now (some (v, none)) = some (v + 1, none)
bump_cell now (some (v, some end)) = if ltb now end then some (v + 1, some end) else some (1, none)

abbrev pub expire_cell : ℕ → ℕ → Cell → Cell
expire_cell now ttl c = elim (live now c) [ none ↦ none | some v ↦ some (v, some (now + ttl)) ]

pub live-set :
    (now t v ttl : ℕ)
    → live t (some (v, some (now + ttl))) ≡ (if ltb t (now + ttl) then some v else none)
live-set now t v ttl = refl

pub live-bump_cell :
    (now : ℕ) (c : Cell)
    → live now (bump_cell now c) ≡ some (elim (live now c) [ none ↦ 1 | some n ↦ n + 1 ])
live-bump_cell now none = refl
live-bump_cell now (some (v, none)) = refl
live-bump_cell now (some (v, some end)) = ground arith

pub live-expire_cell :
    (now t ttl : ℕ) (c : Cell)
    → live t (expire_cell now ttl c) ≡ (if ltb t (now + ttl) then live now c else none)
live-expire_cell now t ttl none = ground arith
live-expire_cell now t ttl (some (v, none)) = ground arith
live-expire_cell now t ttl (some (v, some end)) = ground arith

abbrev pub update : (Key → Cell) → Key → Cell → Key → Cell
update s k c j = if same_key k j then c else s j

pub live-update :
    (s : Key → Cell) (t : ℕ) (k j : Key) (c : Cell)
    → live t (update s k c j) ≡ (if same_key k j then live t c else live t (s j))
live-update s t k j c = elim (Bool-cases (same_key k j)) [
  | inl same ↦ rw same
  | inr other ↦ rw other
]

pub value-set_memory :
    (s : Key → Cell) (now t : ℕ) (k j : Key) (v ttl : ℕ)
    → live t (update s k (some (v, some (now + ttl))) j)
      ≡ (if same_key k j then (if ltb t (now + ttl) then some v else none) else live t (s j))
value-set_memory s now t k j v ttl = live-update s t k j (some (v, some (now + ttl)))

pub value-incr_memory :
    (s : Key → Cell) (now : ℕ) (k j : Key)
    → live now (update s k (bump_cell now (s k)) j) ≡ (
        if same_key k j
        then some (elim (live now (s k)) [ none ↦ 1 | some n ↦ n + 1 ])
        else live now (s j))
value-incr_memory s now k j =
    rw (live-update s now k j (bump_cell now (s k)), live-bump_cell now (s k))

pub value-expire_memory :
    (s : Key → Cell) (now t : ℕ) (k j : Key) (ttl : ℕ)
    → live t (update s k (expire_cell now ttl (s k)) j) ≡ (
        if same_key k j then (if ltb t (now + ttl) then live now (s k) else none) else live t (s j))
value-expire_memory s now t k j ttl =
    rw (live-update s t k j (expire_cell now ttl (s k)), live-expire_cell now t ttl (s k))

instance abbrev pub memory : Redis
memory = record {
  State = Key → Cell;
  value = λ s now k. live now (s k);
  set = λ s now k v ttl. update s k (some (v, some (now + ttl)));
  del = λ s k. update s k none;
  incr = λ s now k. update s k (bump_cell now (s k));
  expire = λ s now k ttl. update s k (expire_cell now ttl (s k));
  value-set = λ s now t k j v ttl h. value-set_memory s now t k j v ttl;
  value-del = λ s t k j. live-update s t k j none;
  value-incr = value-incr_memory;
  value-expire = λ s now t k j ttl h. value-expire_memory s now t k j ttl;
}
