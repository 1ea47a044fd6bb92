-- ===== src/Restaurants/Availability.antt =====
-- The availability hint against the booking (app/routers/restaurants.py, check_availability, and
-- app/services/reservations.py, create_reservation): both ask the same question.
use restaurant_reservation_s.Prelude.{
  ℕ, ◌≡◌, refl, List, [], ◌∷◌, some, any, if◌then◌else◌, arith, Bool-cases, inl, inr,
}
use restaurant_reservation_s.Http.{ok, raised, http_exception, already_booked}
use restaurant_reservation_s.Models.Restaurant.{RestaurantTable}
use restaurant_reservation_s.Models.Reservation.{Reservation, conflicts}
use restaurant_reservation_s.Database.{Db, Engine, find_table}
use restaurant_reservation_s.Migration.Phase.{Phase}
use restaurant_reservation_s.Migration.Fit.{Fits}
use restaurant_reservation_s.Reservations.Requests.{ReservationCreate}
use restaurant_reservation_s.Reservations.Service.{create_reservation, new_reservation}
use restaurant_reservation_s.Reservations.Inversion.{stored}
use restaurant_reservation_s.Reservations.Outcomes.{
  IsAcceptable, create_reservation-conflict_or_stored,
}
use restaurant_reservation_s.Restaurants.{taken, slot}

pub taken-conflicts :
    (p : Phase) (user_id : ℕ) (b : ReservationCreate) (rs : List Reservation)
    → taken b.restaurant_table_id b.starts_at b.ends_at rs
      ≡ any (conflicts (new_reservation p user_id b)) rs
unfolding taken conflicts new_reservation
taken-conflicts p user_id b [] = refl
taken-conflicts p user_id b (r ∷ rs) = ground (arith, taken-conflicts p user_id b rs)

find_table-id :
    (i : ℕ) (ts : List RestaurantTable) {t : RestaurantTable} → find_table i ts ≡ some t → t.id ≡ i
unfolding find_table
find_table-id i [] h = cc
find_table-id i (u ∷ ts) {t = t} h = ground (arith, find_table-id i ts {t = t})

-- In a phase that fits the schema, for a request that passes the checks, the slot of its table says available exactly when booking it
-- in the same database succeeds; otherwise the booking is answered 409.
pub slot-create_reservation :
    (e : Engine) (p : Phase) (user_id : ℕ) (b : ReservationCreate) (s : Db) (t : RestaurantTable)
    → Fits p s.columns
    → IsAcceptable s user_id b t
    → (create_reservation e p user_id b s).0 ≡ (
        if (slot b.starts_at b.ends_at s t).available
        then ok (stored e s (new_reservation p user_id b))
        else raised (http_exception 409 already_booked))
unfolding slot
slot-create_reservation e p user_id b s t f a =
    let same = find_table-id b.restaurant_table_id s.tables a.table_found in
    rw
      (
        create_reservation-conflict_or_stored e p user_id b s t f a,
        same,
        taken-conflicts p user_id b s.reservations,
      )
      (elim (Bool-cases (any (conflicts (new_reservation p user_id b)) s.reservations)) [
        | inl hit ↦ rw hit
        | inr free ↦ rw free
      ])
