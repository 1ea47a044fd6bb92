-- ===== src/Traffic/Windows.antt =====
-- The windows of steady mode (scripts/traffic.py, Steady.create).
use restaurant_reservation_s.Prelude.{ℕ, ◌≡◌, ◌≢◌, false, arith}
use restaurant_reservation_s.Names.{Text}
use restaurant_reservation_s.Models.Reservation.{conflicts}
use restaurant_reservation_s.Migration.Phase.{Phase}
use restaurant_reservation_s.Reservations.Service.{new_reservation}
use restaurant_reservation_s.Traffic.{booking_payload, slot_start}

-- The bookings of two different slots of a run never conflict, whatever names and phases they are
-- for.
pub slot_start-apart :
    (p q : Phase) (user_id restaurant_id table_id base i j : ℕ) (a b : Text)
    → i ≢ j
    → conflicts
        (new_reservation p user_id (booking_payload restaurant_id table_id (slot_start base i) a))
        (new_reservation q user_id (booking_payload restaurant_id table_id (slot_start base j) b))
      ≡ false
unfolding conflicts new_reservation booking_payload slot_start
slot_start-apart p q user_id restaurant_id table_id base i j a b apart = ground arith
