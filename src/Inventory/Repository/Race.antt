-- ===== src/Inventory/Repository/Race.antt =====
-- `confirm` against a release of the same reservation. The version column guards the inventory
-- row only: `confirm` reads the reservation first and the inventory afterwards, so a release that
-- commits between the two reads is not noticed by the flush.
use eventsphere.Prelude.{sym, ◌∙◌, ap, ◌||◌, refl, arith, false, some, true, ◌≡◌, ℕ}
use eventsphere.Storage.{Storage}
use eventsphere.Inventory.Repository.{confirm_seats, confirm, undisturbed, release, settle, Waits}
use eventsphere.Inventory.Models.{Reservation, EventInventory, Db}
use eventsphere.Inventory.Seats.{held, seats, Counted, IsValid}
use eventsphere.Inventory.Session.{write_reservation, begin, close_scope, unchanged, session_scope}
use eventsphere.Enums.{confirmed, same_status, expired, pending, ReservationStatus}
use eventsphere.Errors.{ok, Result}
use eventsphere.Inventory.Seats.Moves.{seats-update, write_inventory}
use eventsphere.Inventory.Repository.Settle.{unchanged-confirm_seats, flush_inventory_self, bumped}
use eventsphere.Inventory.Repository.Safety.{release-IsNext}
use eventsphere.Prelude.Int.{int_laws, ◌<ℤ◌, ◌+ℤ◌, pos, ℤ, ◌-ℤ◌}
use eventsphere.Inventory.Repository.Holds.{release_row, release_explicit, Released, ReleasedBy}
use mathlib.Core.Path.{subst, subst⁻¹}

no_seats :
    (lost gained x q : ℤ) {sum sum' : ℤ}
    → lost ≡ pos 0
    → gained ≡ pos 0
    → lost +ℤ sum' ≡ gained +ℤ sum
    → x ≡ sum
    → x -ℤ q ≡ sum'
    → pos 0 <ℤ q
    → ⊥
no_seats lost gained x q a b c d e h = grind int_laws

no_change :
    (lost gained : ℤ) {sum sum' : ℤ}
    → lost ≡ pos 0
    → gained ≡ pos 0
    → lost +ℤ sum' ≡ gained +ℤ sum
    → sum' ≡ sum
no_change lost gained a b c = grind int_laws

held-other :
    (r : Reservation) (status : ReservationStatus) (id k : ℕ)
    → same_status status pending ≡ false
    → held pending k (id, record r { status = status }) ≡ pos 0
held-other r status id k h = ground arith

module _ ⦃S : Storage⦄ where
  -- The reaper expires the reservation while `confirm` waits for the inventory row.
  abbrev pub overtaken : ℕ → Waits
  overtaken id = record {
    before_inventory = λ db. (session_scope (release undisturbed true id) db).1;
    before_flush = λ db. db;
  }

  settle-after :
      (f : Db → Db) (db : Db) (change : EventInventory → EventInventory) (r : Reservation)
      (status : ReservationStatus) (inv : EventInventory)
      → S.get (f db).inventories r.event_id ≡ some inv
      → inv.event_id ≡ r.event_id
      → (change inv).event_id ≡ inv.event_id
      → unchanged inv (change inv) ≡ false
      → close_scope (
          settle
            (record { before_inventory = f; before_flush = λ d. d })
            change
            r
            status
            (begin db))
        ≡ (
          ok (record r { status = status }),
          write_reservation
              (record r { status = status })
              (write_inventory (bumped inv (change inv)) (f db)),
        )
  unfolding settle
  settle-after f db change r status inv found key same changed =
      let found' : S.get (f db).inventories inv.event_id ≡ some inv = cc in
      rw (found, settle) (rw (flush_inventory_self inv (change inv) (f db) same found' changed))

  module _ (db : Db) (valid : IsValid db) (id : ℕ) (r : Reservation)
      (stored : S.get db.reservations id ≡ some r) (is_pending : r.status ≡ pending) where
    abbrev expired_db : Db
    expired_db = (session_scope (release undisturbed true id) db).1

    abbrev raced : Result Reservation × Db
    raced = session_scope (confirm (overtaken id) id) db

    is_pending_test : same_status r.status pending ≡ true
    is_pending_test = ground arith

    -- The row of the reservation when the flush comes.
    row_expired : S.get expired_db.reservations id ≡ some (record r { status = expired })
    row_expired =
        let holding : (same_status r.status pending || same_status r.status confirmed) ≡ true =
          ground arith in
        let r' : Reservation = record r { status = expired } in
        let (inv, found, done) =
          rw (holding, ReleasedBy) at (release_row true db id (some r) valid stored) in
        subst⁻¹ (λ (out : Result Reservation × Db). S.get out.1.reservations id ≡ some r') done
          (ground (arith, S.get-put db.reservations r.id id r', valid.keyed id r stored))

    raced-eq :
        (inv : EventInventory)
        → S.get expired_db.inventories r.event_id ≡ some inv
        → raced ≡ (
          ok (record r { status = confirmed }),
          write_reservation
              (record r { status = confirmed })
              (write_inventory (bumped inv (confirm_seats r.quantity inv)) expired_db),
        )
    unfolding session_scope confirm
    raced-eq inv found =
        let valid' : IsValid expired_db = (release-IsNext true db id valid).valid in
        rw (stored, confirm)
          (rw is_pending_test (
            settle-after (overtaken id).before_inventory db (confirm_seats r.quantity) r confirmed
              inv found (valid'.counted r.event_id inv found).keyed refl
              (unchanged-confirm_seats r.quantity inv (valid.positive id r stored))))

    lost_seats :
        (inv : EventInventory)
        → S.get expired_db.inventories r.event_id ≡ some inv
        → ¬ IsValid (
            write_reservation
              (record r { status = confirmed })
              (write_inventory (bumped inv (confirm_seats r.quantity inv)) expired_db))
    lost_seats inv found v =
        let valid' : IsValid expired_db = (release-IsNext true db id valid).valid in
        let was : Counted expired_db r.event_id inv = valid'.counted r.event_id inv found in
        let after : EventInventory = bumped inv (confirm_seats r.quantity inv) in
        let r' : Reservation = record r { status = confirmed } in
        let key : r.id ≡ id = valid.keyed id r stored in
        let row : S.get expired_db.reservations r'.id ≡ some (record r { status = expired }) =
          cc row_expired in
        let there : S.get (write_inventory after expired_db).inventories r.event_id ≡ some after =
          ground
            (arith, S.get-put expired_db.inventories after.event_id r.event_id after, was.keyed) in
        let now : inv.reserved_count -ℤ r.quantity
            ≡ seats pending r.event_id (write_reservation r' (write_inventory after expired_db)) =
          (v.counted r.event_id after there).reserved in
        no_seats _ _ _ r.quantity (held-other r expired r.id r.event_id refl)
          (held-other r confirmed r.id r.event_id refl)
          (seats-update pending r.event_id (record r { status = expired }) r'
            (write_inventory after expired_db) row)
          was.reserved now (valid.positive id r stored)

    -- The release has taken the seats off `reserved_count`, and the pending reservations with it.
    released_row :
        (inv inv₁ : EventInventory) × (S.get db.inventories r.event_id ≡ some inv)
        × (S.get expired_db.inventories r.event_id ≡ some inv₁)
        × (inv₁.reserved_count ≡ inv.reserved_count -ℤ r.quantity)
        × (inv₁.confirmed_count ≡ inv.confirmed_count)
    released_row =
        let (inv, found, done) =
          rw (is_pending_test, Released) at
            (release_explicit true db (some r) _ (release_row true db id (some r) valid stored)) in
        let inv₁ : EventInventory = record inv {
          reserved_count = inv.reserved_count -ℤ r.quantity;
          version = S.next_version inv.version;
        } in
        (
          inv,
          inv₁,
          found,
          subst⁻¹
              (λ (out : Result Reservation × Db). S.get out.1.inventories r.event_id ≡ some inv₁)
              done
              (ground (
                arith,
                S.get-put db.inventories inv.event_id r.event_id inv₁,
                (valid.counted r.event_id inv found).keyed,
              )),
          refl,
          refl,
        )

    -- Neither an expired reservation nor a confirmed one is pending.
    still_pending :
        (after : EventInventory)
        → seats pending r.event_id
            (write_reservation (record r { status = confirmed }) (write_inventory after expired_db))
          ≡ seats pending r.event_id expired_db
    still_pending after =
        let r' : Reservation = record r { status = confirmed } in
        let row : S.get expired_db.reservations r'.id ≡ some (record r { status = expired }) =
          cc (row_expired, valid.keyed id r stored) in
        no_change _ _ (held-other r expired r.id r.event_id refl)
          (held-other r confirmed r.id r.event_id refl)
          (seats-update pending r.event_id (record r { status = expired }) r'
            (write_inventory after expired_db) row)

    -- The counters after the race, and the seats that the pending reservations hold.
    pub record TakenTwice (inv inv' : EventInventory) : Type 0 where
      pub before : S.get db.inventories r.event_id ≡ some inv
      pub after : S.get raced.1.inventories r.event_id ≡ some inv'
      pub taken_twice : inv'.reserved_count ≡ inv.reserved_count -ℤ r.quantity -ℤ r.quantity
      pub held_pending : seats pending r.event_id raced.1 ≡ inv.reserved_count -ℤ r.quantity
      pub gained : inv'.confirmed_count ≡ inv.confirmed_count +ℤ r.quantity

    -- On a valid database, if the reaper expires a pending reservation between the two reads of
    -- `confirm`, then `confirm` still reports it as confirmed; the seats have been taken off
    -- `reserved_count` twice, while the pending reservations hold only once that much less than
    -- before, and the invariant is broken.
    pub confirm_overtaken :
        (raced.0 ≡ ok (record r { status = confirmed }))
        × ((inv inv' : EventInventory) × TakenTwice inv inv')
        × ¬ IsValid raced.1
    confirm_overtaken =
        let (inv, inv₁, found, found₁, less, same) = released_row in
        let eq = raced-eq inv₁ found₁ in
        let valid' : IsValid expired_db = (release-IsNext true db id valid).valid in
        let inv' : EventInventory = bumped inv₁ (confirm_seats r.quantity inv₁) in
        (
          ap (λ (out : Result Reservation × Db). out.0) eq,
          (
            inv,
            inv',
            record {
              before = found;
              after =
                  subst⁻¹
                    (λ (out : Result Reservation × Db).
                      S.get out.1.inventories r.event_id ≡ some inv')
                    eq
                    (ground (
                      arith,
                      S.get-put expired_db.inventories inv₁.event_id r.event_id inv',
                      (valid'.counted r.event_id inv₁ found₁).keyed,
                    ));
              taken_twice = ap (λ x. x -ℤ r.quantity) less;
              held_pending =
                  ap (λ (out : Result Reservation × Db). seats pending r.event_id out.1) eq
                  ∙ still_pending inv'
                  ∙ sym (valid'.counted r.event_id inv₁ found₁).reserved
                  ∙ less;
              gained = ap (λ x. x +ℤ r.quantity) same;
            },
          ),
          λ v.
              lost_seats inv₁ found₁
                (subst (λ (out : Result Reservation × Db). IsValid out.1) eq v),
        )
