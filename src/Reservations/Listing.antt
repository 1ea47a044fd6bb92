-- ===== src/Reservations/Listing.antt =====
-- The list of the caller's bookings (app/services/reservations.py, select_my_bookings and
-- to_list_item, and app/routers/reservations.py, list_my_reservations).
use restaurant_reservation_s.Prelude.{
  ℕ, Bool, List, [], ◌∷◌, Option, none, some, ◌==◌, leb, select, take, all, if◌then◌else◌,
}
use restaurant_reservation_s.Http.{
  Outcome, ok, raised, undefined_column, validation_error, attribute_error,
}
use restaurant_reservation_s.Names.{Text}
use restaurant_reservation_s.Models.User.{User}
use restaurant_reservation_s.Models.Restaurant.{Restaurant}
use restaurant_reservation_s.Models.Reservation.{Reservation}
use restaurant_reservation_s.Database.{Db, find_restaurant}
use restaurant_reservation_s.Migration.Phase.{Phase, read_columns, has_column}
use restaurant_reservation_s.Action.{Action, reading}
use restaurant_reservation_s.Paging.{order_by}
use restaurant_reservation_s.Reservations.Routes.{ReservationOut, read_name, out}

-- A row of the query: the reservation's columns and the name of its restaurant.
pub record Booking : Type 0 where
  pub reservation : Reservation
  pub restaurant_name : Text

abbrev pub cons_booking : Reservation → Option Restaurant → List Booking → List Booking
cons_booking r none bs = bs
cons_booking r (some t) bs = record { reservation = r; restaurant_name = t.name } ∷ bs

-- JOIN restaurants ON restaurants.id = reservations.restaurant_id
unfoldable pub join_restaurants : List Restaurant → List Reservation → List Booking
join_restaurants ts [] = []
join_restaurants ts (r ∷ rs) =
    cons_booking r (find_restaurant r.restaurant_id ts) (join_restaurants ts rs)

-- ORDER BY starts_at DESC
abbrev pub newer_booking : Booking → Booking → Bool
newer_booking a b = leb b.reservation.starts_at a.reservation.starts_at

-- The rows of the user, before LIMIT.
abbrev pub own_bookings : ℕ → Db → List Booking
own_bookings user_id s =
    join_restaurants s.restaurants (select (λ r. r.user_id == user_id) s.reservations)

unfoldable pub select_my_bookings : Phase → ℕ → ℕ → Db → Outcome (List Booking)
select_my_bookings p user_id limit s =
    if all (has_column s.columns) (read_columns p)
    then ok (take limit (order_by newer_booking (own_bookings user_id s)))
    else raised undefined_column

pub record ReservationListItem : Type 0 where
  pub reservation : ReservationOut
  pub restaurant_name : Text

-- A row of a query has no attribute for a column that was not selected.
abbrev pub list_item : Booking → Outcome (Option Text) → Outcome ReservationListItem
list_item b (ok (some name)) =
    ok (record { reservation = out b.reservation name; restaurant_name = b.restaurant_name })
list_item b (ok none) = raised validation_error
list_item b (raised x) = raised attribute_error

unfoldable pub to_list_item : Phase → Phase → Booking → Outcome ReservationListItem
unfolding read_name
to_list_item loaded now b = list_item b (read_name loaded now b.reservation)

abbrev pub cons_outcome {ℓ} : {A : Type ℓ} → Outcome A → Outcome (List A) → Outcome (List A)
cons_outcome (ok x) (ok xs) = ok (x ∷ xs)
cons_outcome (ok x) (raised e) = raised e
cons_outcome (raised e) _ = raised e

-- [svc.to_list_item(row) for row in rows]
unfoldable pub list_items : Phase → Phase → List Booking → Outcome (List ReservationListItem)
list_items loaded now [] = ok []
list_items loaded now (b ∷ bs) = cons_outcome (to_list_item loaded now b) (list_items loaded now bs)

abbrev pub then_items : Phase → Phase → Outcome (List Booking) → Outcome (List ReservationListItem)
then_items loaded now (ok bs) = list_items loaded now bs
then_items loaded now (raised x) = raised x

-- GET /api/v1/reservations. The phase may change while the query runs.
unfoldable pub list_my_reservations : Phase → Phase → User → ℕ → Action (List ReservationListItem)
list_my_reservations loaded now current limit =
    reading (λ s. then_items loaded now (select_my_bookings loaded current.id limit s))
