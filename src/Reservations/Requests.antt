-- ===== src/Reservations/Requests.antt =====
-- The bodies of the reservation requests and what Pydantic checks before a handler runs
-- (app/schemas/reservation.py); a request that fails is answered 422.
use restaurant_reservation_s.Prelude.{
  ℕ, ◌-◌, ◌*◌, Bool, true, not, ◌&&◌, Option, none, some, ltb, leb, length, if◌then◌else◌,
}
use restaurant_reservation_s.Names.{Text}
use restaurant_reservation_s.Models.Reservation.{ReservationStatus}

-- A datetime as it was sent: the instant, and whether it has an offset (tzinfo is not None).
pub record Datetime : Type 0 where
  pub instant : ℕ
  pub is_aware : Bool

-- The JSON body, with the two timestamps as they were sent.
pub record ReservationBody : Type 0 where
  pub restaurant_id : ℕ
  pub restaurant_table_id : ℕ
  pub guest_name : Text
  pub party_size : ℕ
  pub starts_at : Datetime
  pub ends_at : Datetime

pub record ReservationCreate : Type 0 where
  pub restaurant_id : ℕ
  pub restaurant_table_id : ℕ
  pub guest_name : Text
  pub party_size : ℕ
  pub starts_at : ℕ
  pub ends_at : ℕ

abbrev pub second : ℕ
second = 1000000

abbrev pub name_fits : Text → Bool
name_fits s = leb 2 (length s) && leb (length s) 120

abbrev pub party_fits : ℕ → Bool
party_fits n = ltb 0 n && leb n 20

-- `check_window`: both orders and the limit of six hours.
unfoldable pub check_window : ℕ → ℕ → Bool
check_window starts_at ends_at =
    not (leb ends_at starts_at) && not (ltb (6 * 3600 * second) (ends_at - starts_at))

unfoldable pub validate_create : ReservationBody → Option ReservationCreate
unfolding check_window
validate_create b =
    if ltb 0 b.restaurant_id
      && ltb 0 b.restaurant_table_id
      && name_fits b.guest_name
      && party_fits b.party_size
      && b.starts_at.is_aware
      && b.ends_at.is_aware
      && check_window b.starts_at.instant b.ends_at.instant
    then some (record {
      restaurant_id = b.restaurant_id;
      restaurant_table_id = b.restaurant_table_id;
      guest_name = b.guest_name;
      party_size = b.party_size;
      starts_at = b.starts_at.instant;
      ends_at = b.ends_at.instant;
    })
    else none

-- None stands for a field that was left out or sent as null.
pub record ReservationUpdate : Type 0 where
  pub guest_name : Option Text
  pub party_size : Option ℕ
  pub status : Option ReservationStatus

abbrev pub optional {ℓ} : {A : Type ℓ} → (A → Bool) → Option A → Bool
optional p none = true
optional p (some a) = p a

unfoldable pub validate_update : ReservationUpdate → Bool
validate_update u = optional name_fits u.guest_name && optional party_fits u.party_size
