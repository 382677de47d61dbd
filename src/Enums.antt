-- ===== src/Enums.antt =====
-- services/shared/enums.py: the statuses and roles, with the comparisons that the code makes.
use eventsphere.Prelude.{Bool, true, false}

pub data UserRole : Type 0 where
  attendee organizer admin : UserRole

pub data OrderStatus : Type 0 where
  pending confirmed cancelled expired : OrderStatus

pub data ReservationStatus : Type 0 where
  pending confirmed released expired : ReservationStatus

-- `==` on the members of each enum.
abbrev pub same_role : UserRole → UserRole → Bool
same_role UserRole.attendee UserRole.attendee = true
same_role UserRole.organizer UserRole.organizer = true
same_role UserRole.admin UserRole.admin = true
same_role _ _ = false

abbrev pub same_order_status : OrderStatus → OrderStatus → Bool
same_order_status OrderStatus.pending OrderStatus.pending = true
same_order_status OrderStatus.confirmed OrderStatus.confirmed = true
same_order_status OrderStatus.cancelled OrderStatus.cancelled = true
same_order_status OrderStatus.expired OrderStatus.expired = true
same_order_status _ _ = false

abbrev pub same_status : ReservationStatus → ReservationStatus → Bool
same_status ReservationStatus.pending ReservationStatus.pending = true
same_status ReservationStatus.confirmed ReservationStatus.confirmed = true
same_status ReservationStatus.released ReservationStatus.released = true
same_status ReservationStatus.expired ReservationStatus.expired = true
same_status _ _ = false
