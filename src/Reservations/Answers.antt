-- ===== src/Reservations/Answers.antt =====
-- Every answer of POST /reservations (app/routers/reservations.py and app/services/reservations.py,
-- create_reservation), whatever the body names.
use restaurant_reservation_s.Prelude.{ℕ, ◌≤◌, ◌<◌, ◌^◌, All, ◌≡◌, ◌⊎◌, leb, ◌==◌}
use restaurant_reservation_s.Http.{
  Outcome, ok, raised, http_exception, Detail, wrong_restaurant, table_not_bookable,
  party_exceeds_capacity,
}
use restaurant_reservation_s.Models.User.{User}
use restaurant_reservation_s.Models.Restaurant.{RestaurantTable}
use restaurant_reservation_s.Models.Reservation.{Reservation}
use restaurant_reservation_s.Database.{Db, Engine}
use restaurant_reservation_s.Action.{Action, ◌>>◌, require}
use restaurant_reservation_s.Migration.Phase.{Phase}
use restaurant_reservation_s.Migration.Fit.{Fits}
use restaurant_reservation_s.Reservations.Requests.{ReservationCreate}
use restaurant_reservation_s.Reservations.Service
use restaurant_reservation_s.Reservations.Service.{new_reservation, book}
use restaurant_reservation_s.Reservations.Routes
use restaurant_reservation_s.Reservations.Cases.{with_row}

abbrev pub IsRefusal : ℕ → Type 0
IsRefusal c = (c ≡ 400) ⊎ ((c ≡ 404) ⊎ (c ≡ 409))

-- The service has stored the row, or refuses and leaves the database as it was.
data Booked (s : Db) (row : Reservation) : Outcome Reservation × Db → Type 0 where
  stores : Booked s row (ok row, with_row s row)
  refuses :
      (status : ℕ) (d : Detail)
      → IsRefusal status
      → Booked s row (raised (http_exception status d), s)

module _ (e : Engine) (p : Phase) (s : Db) (f : Fits p s.columns) where
  -- The tests of `create_reservation`, from the last one to the first.
  abbrev seated : ℕ → ReservationCreate → RestaurantTable → Action Reservation
  seated user_id b t =
      require (leb b.party_size t.capacity) 400 party_exceeds_capacity
      >> book e p (new_reservation p user_id b)

  abbrev active : ℕ → ReservationCreate → RestaurantTable → Action Reservation
  active user_id b t = require t.is_active 400 table_not_bookable >> seated user_id b t

  abbrev placed : ℕ → ReservationCreate → RestaurantTable → Action Reservation
  placed user_id b t =
      require (t.restaurant_id == b.restaurant_id) 400 wrong_restaurant >> active user_id b t

-- What PostgreSQL takes as parameters: the ids fit BIGINT, and the name has no NUL.
pub record IsSendable (b : ReservationCreate) : Type 0 where
  pub restaurant_fits : b.restaurant_id < 2 ^ 63
  pub table_fits : b.restaurant_table_id < 2 ^ 63
  pub no_nul : All (λ c. 1 ≤ c) b.guest_name
