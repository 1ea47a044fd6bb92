-- ===== src/Api.antt =====
-- The API as a whole: the requests of all routers that change PostgreSQL (app/main.py and
-- app/routers), each as one step.
pub mod Integrity
pub mod Bookings
pub mod Accounts
pub mod Consistency
use restaurant_reservation_s.Prelude.{ℕ, ◌≡◌, Bool, true, some}
use restaurant_reservation_s.Names.{Text}
use restaurant_reservation_s.Models.User.{User}
use restaurant_reservation_s.Models.Reservation.{Reservation}
use restaurant_reservation_s.Models.Order.{OrderStatus}
use restaurant_reservation_s.Database.{Db, Engine, find_user}
use restaurant_reservation_s.Migration.Phase.{Phase}
use restaurant_reservation_s.Users.{UserCreate, UserUpdate, create_user, update_own_profile}
use restaurant_reservation_s.Restaurants.{RestaurantCreate, validate_restaurant, create_restaurant}
use restaurant_reservation_s.Reservations.Requests.{ReservationCreate, ReservationUpdate}
use restaurant_reservation_s.Reservations.Routes.{create_reservation, finish_update, finish_cancel}
use restaurant_reservation_s.Orders.Catalogue.{Mongo, OrderCreate, ObjectIds}
use restaurant_reservation_s.Orders.Placing.{create_order}
use restaurant_reservation_s.Orders.Routes.{update_status}

-- A request commits. Its user is a row of the table, as get_current_user found him, and its body is
-- one that Pydantic accepts where a result depends on it. `Engine`, `ObjectIds` and the other
-- parameters may differ from request to request.
pub data Request (s : Db) : Db → Type 0 where
  signs_up :
      (same_email : Text → Text → Bool) (e : Engine) (hash : Text → Text) (b : UserCreate)
      → Request s (create_user same_email e hash b s).1
  edits_profile :
      (same_email : Text → Text → Bool) (b : UserUpdate) (current : User)
      → Request s (update_own_profile same_email b current s).1
  opens :
      (e : Engine) (new_id : ℕ) (b : RestaurantCreate) (current : User)
      → find_user current.id s.users ≡ some current
      → validate_restaurant b ≡ true
      → Request s (create_restaurant e new_id b current s).1
  books :
      (e : Engine) (p : Phase) (current : User) (b : ReservationCreate)
      → Request s (create_reservation e p current b s).1
  edits :
      (e : Engine) (p : Phase) (loaded : Reservation) (b : ReservationUpdate)
      → Request s (finish_update e p loaded b s).1
  cancels :
      (e : Engine) (p : Phase) (loaded : Reservation) → Request s (finish_cancel e p loaded s).1
  orders :
      (e : Engine) (ids : ObjectIds) (logged : Bool) (current : User) (b : OrderCreate) (m : Mongo)
      → find_user current.id s.users ≡ some current
      → Request s (create_order e ids logged current.id b s m).1
  moves : (i : ℕ) (new : OrderStatus) (current : User) → Request s (update_status i new current s).1

pub data Requests (s : Db) : Db → Type 0 where
  here : Requests s s
  next : {t u : Db} → Requests s t → Request t u → Requests s u
