-- ===== src/Inventory/Workers/Drains.antt =====
-- The reaper's loop works off the reservations that are overdue.
use eventsphere.Prelude.{
  ℕ, zero, suc, ◌+◌, ◌*◌, ◌≤◌, ◌≡◌, refl, ap, ◌⊎◌, inl, inr, true, List, [], ◌∷◌, ◌++◌, map,
  Bool-cases, arith, leb,
}
use eventsphere.Prelude.Int.{pos, ◌+ℤ◌, int_laws}
use eventsphere.Prelude.Lists.{length, take, select, total}
use eventsphere.Errors.{Result, ok}
use eventsphere.Storage.{Storage}
use eventsphere.Inventory.Models.{Db, Reservation}
use eventsphere.Inventory.Repository.{is_expired_pending}
use eventsphere.Inventory.Seats.{IsValid}
use eventsphere.Inventory.Service.Drain.{
  due, AllDue, AllDue-found, found, given_up, overdue_sum, sweep-found,
}
use eventsphere.Inventory.Workers.{Awake, reap_rounds, reap_announces, expired_message}
use eventsphere.Kafka.Producer.{ready, Message, Producer}

take-short : {A : Type 0} (n : ℕ) (xs : List A) → length xs ≤ n → take n xs ≡ xs
take-short zero [] h = refl
take-short zero (x ∷ xs) h = absurd (omega arith)
take-short (suc n) [] h = refl
take-short (suc n) (x ∷ xs) h = ap (λ l. x ∷ l) (take-short n xs (omega arith))

length-take_long : {A : Type 0} (n : ℕ) (xs : List A) → n ≤ length xs → length (take n xs) ≡ n
length-take_long zero xs h = refl
length-take_long (suc n) [] h = absurd (omega arith)
length-take_long (suc n) (x ∷ xs) h = ap suc (length-take_long n xs (omega arith))

module _ ⦃S : Storage⦄ where
  -- How many pending reservations have run out at a time.
  abbrev pub overdue : ℕ → Db → ℕ
  overdue now db = length (select (is_expired_pending now) (S.rows db.reservations))

  total-due :
      (now : ℕ) (rows : List (ℕ × Reservation))
      → total (due now) rows ≡ pos (length (select (is_expired_pending now) rows))
  total-due now [] = refl
  total-due now (row ∷ rest) = elim (Bool-cases (is_expired_pending now row)) [
    | inl keep ↦ rw keep (grind (int_laws, total-due now rest))
    | inr drop ↦ rw drop (grind (int_laws, total-due now rest))
  ]

  -- What is due stays due.
  later :
      (now t : ℕ) (row : ℕ × Reservation)
      → now ≤ t
      → is_expired_pending now row ≡ true
      → is_expired_pending t row ≡ true
  later now t row le h = ground arith

  overdue_mono_rows :
      (now t : ℕ) (rows : List (ℕ × Reservation))
      → now ≤ t
      → length (select (is_expired_pending now) rows) ≤ length (select (is_expired_pending t) rows)
  overdue_mono_rows now t [] le = omega arith
  overdue_mono_rows now t (row ∷ rest) le =
      let others = overdue_mono_rows now t rest le in
      elim (Bool-cases (is_expired_pending now row)) [
        | inl keep ↦ rw (keep, later now t row le keep) (omega arith)
        | inr drop ↦ elim (Bool-cases (is_expired_pending t row)) [
          | inl keep' ↦ rw (drop, keep') (omega arith)
          | inr drop' ↦ rw (drop, drop') (omega arith)
        ]
      ]

  AllDue-length :
      (now t : ℕ) (rows : List (ℕ × Reservation))
      → now ≤ t
      → AllDue now rows
      → length (select (is_expired_pending t) rows) ≡ length rows
  AllDue-length now t [] le h = refl
  AllDue-length now t (row ∷ rest) le (first, others) =
      rw (later now t row le first) (ap suc (AllDue-length now t rest le others))

  -- A sweep takes what it has found off what is overdue at any time from then on, and leaves
  -- nothing overdue if its query had room for all.
  record Less (now : ℕ) (db db' : Db) : Type 0 where
    never_more : (t : ℕ) → overdue t db' ≤ overdue t db
    progress : (t : ℕ) → now ≤ t → (overdue now db' ≡ 0) ⊎ (overdue t db' + 100 ≡ overdue t db)

  sweep-Less :
      (now : ℕ) (db db' : Db)
      → ((t : ℕ) → total (due t) (found now db) +ℤ overdue_sum t db' ≡ overdue_sum t db)
      → Less now db db'
  sweep-Less now db db' fewer =
      let taken : (t : ℕ)
          → length (select (is_expired_pending t) (found now db)) + overdue t db' ≡ overdue t db =
        λ t. grind (
          int_laws,
          fewer t,
          total-due t (found now db),
          total-due t (S.rows db'.reservations),
          total-due t (S.rows db.reservations),
        ) in
      record {
        never_more = λ t. let e = taken t in omega arith;
        progress = λ t le. elim (Bool-cases (leb (overdue now db) 100)) [
          | inl short ↦
              let few : overdue now db ≤ 100 = ground arith in
              let all_found =
                ap length
                  (take-short 100 (select (is_expired_pending now) (S.rows db.reservations)) few) in
              let due_found =
                AllDue-length now now (found now db) (omega arith) (AllDue-found now db) in
              let e = taken now in inl (omega arith)
          | inr long ↦
              let many : 100 ≤ overdue now db = ground arith in
              let full =
                length-take_long 100 (select (is_expired_pending now) (S.rows db.reservations))
                  many in
              let due_found = AllDue-length now t (found now db) le (AllDue-found now db) in
              let e = taken t in inr (omega arith)
        ];
      }

  -- What others commit between two rounds keeps the invariant and adds nothing that is overdue
  -- before `last`: a new reservation lives for its TTL, and none becomes pending again.
  pub record IsCalm (start last : ℕ) (round : Awake) : Type 0 where
    pub valid : (db : Db) → IsValid db → IsValid (round.asleep db)
    pub never_more : (db : Db) (t : ℕ) → t ≤ last → overdue t (round.asleep db) ≤ overdue t db
    pub after_start : start ≤ round.now
    pub before_last : round.now ≤ last

  -- What is left to do for n rounds.
  abbrev Left : ℕ → ℕ → ℕ → Db → Type 0
  Left start last n db = (overdue start db ≡ 0) ⊎ (overdue last db ≤ n * 100)

  abbrev Drained : ℕ → Result (Unit {0}) × Db × Producer → Type 0
  Drained start out =
      (db : Db) × (sent : List Message) × (out ≡ (ok tt, db, ready sent))
      × IsValid db
      × (overdue start db ≡ 0)

  Left-after :
      (start last n : ℕ) (round : Awake) (db db' : Db)
      → start ≤ last
      → IsCalm start last round
      → Less round.now db db'
      → Left start last (suc n) db
      → Left start last n (round.asleep db')
  Left-after start last n round db db' le calm less (inl done) =
      let calm_less = calm.never_more db' start le in
      let never_more = less.never_more start in inl (omega arith)
  Left-after start last n round db db' le calm less (inr few) =
      let after_start = calm.after_start in
      let before_last = calm.before_last in
      elim (less.progress last before_last) [
        | inl none_left ↦
            let sooner = overdue_mono_rows start round.now (S.rows db'.reservations) after_start in
            let calm_less = calm.never_more db' start le in inl (omega arith)
        | inr fewer ↦ let calm_less = calm.never_more db' last (omega arith) in inr (omega arith)
      ]

  rounds-Drained :
      (rounds : ℕ → Awake) (start last n : ℕ) (db : Db) (sent : List Message)
      → start ≤ last
      → ((i : ℕ) → IsCalm start last (rounds i))
      → IsValid db
      → Left start last n db
      → Drained start (reap_rounds rounds n db (ready sent))
  unfolding reap_rounds
  rounds-Drained rounds start last zero db sent le calm valid (inl done) =
      (db, sent, refl, valid, done)
  rounds-Drained rounds start last zero db sent le calm valid (inr few) =
      let sooner = overdue_mono_rows start last (S.rows db.reservations) le in
      (db, sent, refl, valid, omega arith)
  rounds-Drained rounds start last (suc n) db sent le calm valid left =
      let (db₁, swept, valid₁, fewer) = sweep-found (rounds n).now db valid in
      let released : List Reservation = map given_up (found (rounds n).now db) in
      let less = sweep-Less (rounds n).now db db₁ fewer in
      let (db', sent', done, valid', empty) =
        rounds-Drained rounds start last n ((rounds n).asleep db₁)
          (sent ++ map expired_message released) le calm ((calm n).valid db₁ valid₁)
          (Left-after start last n (rounds n) db db₁ le (calm n) less left) in
      (
        db',
        sent',
        rw (reap_announces (rounds n).now db db₁ released sent swept, reap_rounds) done,
        valid',
        empty,
      )

  -- The reaper's loop terminates with its work. With a broker that takes messages, n rounds of it at
  -- times from `start` to `last`, on a valid database where at most 100 n pending reservations run
  -- out before `last`, raise nothing and leave no pending reservation that has run out before
  -- `start`; between the rounds other transactions may commit, if they keep the invariant and do
  -- not add reservations that run out before `last`.
  pub reaper_drains :
      (rounds : ℕ → Awake) (start last n : ℕ) (db : Db) (sent : List Message)
      → start ≤ last
      → ((i : ℕ) → IsCalm start last (rounds i))
      → IsValid db
      → overdue last db ≤ n * 100
      → (db' : Db) × (sent' : List Message) × (reap_rounds rounds n db (ready sent)
          ≡ (ok tt, db', ready sent'))
        × IsValid db'
        × (overdue start db' ≡ 0)
  reaper_drains rounds start last n db sent le calm valid few =
      rounds-Drained rounds start last n db sent le calm valid (inr few)
