-- ===== src/Reservations/Stored.antt =====
-- The row that POST /reservations stores (app/services/reservations.py, create_reservation), column by
-- column.
use restaurant_reservation_s.Prelude.{ℕ, ◌≡◌, refl, none, some}
use restaurant_reservation_s.Names.{Text, split_guest_name}
use restaurant_reservation_s.Models.Reservation.{Reservation, confirmed}
use restaurant_reservation_s.Database.{Db, Engine}
use restaurant_reservation_s.Migration.Phase.{Phase, legacy, dual_write, read_new, new_only}
use restaurant_reservation_s.Reservations.Requests.{ReservationCreate}
use restaurant_reservation_s.Reservations.Service.{new_reservation}
use restaurant_reservation_s.Reservations.Inversion.{stored}

-- The name is in the columns that the phase writes, and in no other.
abbrev pub IsNamed : Phase → Text → Reservation → Type 0
IsNamed legacy name r = (r.guest_name ≡ some name) × (r.first_name ≡ none) × (r.last_name ≡ none)
IsNamed new_only name r =
    (r.guest_name ≡ none)
    × (r.first_name ≡ some (split_guest_name name).0)
    × (r.last_name ≡ some (split_guest_name name).1)
IsNamed _ name r =
    (r.guest_name ≡ some name)
    × (r.first_name ≡ some (split_guest_name name).0)
    × (r.last_name ≡ some (split_guest_name name).1)

-- A new, confirmed booking of this user, as the body wants it.
pub record IsBookingOf (e : Engine) (p : Phase) (user_id : ℕ) (b : ReservationCreate) (s : Db)
    (row : Reservation) : Type 0 where
  pub is_new_id : row.id ≡ e.next_reservation_id s.reservations
  pub is_new_version : row.version ≡ e.next_xid s.reservations
  pub created_now : row.created_at ≡ e.now
  pub of_user : row.user_id ≡ user_id
  pub at_restaurant : row.restaurant_id ≡ b.restaurant_id
  pub at_table : row.restaurant_table_id ≡ b.restaurant_table_id
  pub name : IsNamed p b.guest_name row
  pub party : row.party_size ≡ b.party_size
  pub starts : row.starts_at ≡ b.starts_at
  pub ends : row.ends_at ≡ b.ends_at
  pub is_confirmed : row.status ≡ confirmed

stored-IsNamed :
    (e : Engine) (p : Phase) (user_id : ℕ) (b : ReservationCreate) (s : Db)
    → IsNamed p b.guest_name (stored e s (new_reservation p user_id b))
unfolding new_reservation
stored-IsNamed e legacy user_id b s = (refl, refl, refl)
stored-IsNamed e dual_write user_id b s = (refl, refl, refl)
stored-IsNamed e read_new user_id b s = (refl, refl, refl)
stored-IsNamed e new_only user_id b s = (refl, refl, refl)

pub stored-IsBookingOf :
    (e : Engine) (p : Phase) (user_id : ℕ) (b : ReservationCreate) (s : Db)
    → IsBookingOf e p user_id b s (stored e s (new_reservation p user_id b))
unfolding new_reservation
stored-IsBookingOf e p user_id b s = record {
  is_new_id = refl;
  is_new_version = refl;
  created_now = refl;
  of_user = refl;
  at_restaurant = refl;
  at_table = refl;
  name = stored-IsNamed e p user_id b s;
  party = refl;
  starts = refl;
  ends = refl;
  is_confirmed = refl;
}
