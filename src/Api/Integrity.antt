-- ===== src/Api/Integrity.antt =====
-- When the rows of the database refer to rows that are there (app/models, the foreign keys, and what
-- the services check beyond them), and what a step must keep for that.
use restaurant_reservation_s.Prelude.{ℕ, ◌≤◌, ◌≡◌, refl, true, Option, none, some, All, All-map}
use restaurant_reservation_s.Models.Restaurant.{Restaurant, RestaurantTable}
use restaurant_reservation_s.Models.Reservation.{Reservation}
use restaurant_reservation_s.Models.Order.{Order}
use restaurant_reservation_s.Database.{Db, find_user, find_restaurant, find_table}
use restaurant_reservation_s.Reservations.Store.{is_some}
use restaurant_reservation_s.Orders.Receipt.{IsOwn, line_total}

abbrev pub HasUser : Db → ℕ → Type 0
HasUser s i = is_some (find_user i s.users) ≡ true

abbrev pub HasRestaurant : Db → ℕ → Type 0
HasRestaurant s i = is_some (find_restaurant i s.restaurants) ≡ true

-- The reservation, if one is named, is there and is the user's.
pub record RestaurantRefs (s : Db) (r : Restaurant) : Type 0 where
  pub owner : HasUser s r.owner_id
  pub price_at_least_one : 1 ≤ r.price_range
  pub price_at_most_four : r.price_range ≤ 4

pub record ReservationRefs (s : Db) (r : Reservation) : Type 0 where
  pub user : HasUser s r.user_id
  pub restaurant : HasRestaurant s r.restaurant_id
  pub table : RestaurantTable
  pub table_found : find_table r.restaurant_table_id s.tables ≡ some table
  pub same_restaurant : table.restaurant_id ≡ r.restaurant_id

pub record OrderRefs (s : Db) (o : Order) : Type 0 where
  pub user : HasUser s o.user_id
  pub restaurant : HasRestaurant s o.restaurant_id
  pub reservation : IsOwn s o.user_id o.reservation_id
  pub total : o.total_amount ≡ line_total o.items

pub record IsConsistent (s : Db) : Type 0 where
  pub restaurants : All (RestaurantRefs s) s.restaurants
  pub reservations : All (ReservationRefs s) s.reservations
  pub orders : All (OrderRefs s) s.orders

-- What rows may refer to is still there.
pub record Grows (s t : Db) : Type 0 where
  pub users : (i : ℕ) → HasUser s i → HasUser t i
  pub restaurants : (i : ℕ) → HasRestaurant s i → HasRestaurant t i
  pub tables : t.tables ≡ s.tables
  pub bookings : (user_id i : ℕ) → IsOwn s user_id (some i) → IsOwn t user_id (some i)

pub Grows-refl : (s : Db) → Grows s s
Grows-refl s = record {
  users = λ i h. h;
  restaurants = λ i h. h;
  tables = refl;
  bookings = λ u i h. h;
}

module _ (s t : Db) (g : Grows s t) where
  RestaurantRefs-Grows : (r : Restaurant) → RestaurantRefs s r → RestaurantRefs t r
  RestaurantRefs-Grows r h = record {
    owner = g.users r.owner_id h.owner;
    price_at_least_one = h.price_at_least_one;
    price_at_most_four = h.price_at_most_four;
  }

  ReservationRefs-Grows : (r : Reservation) → ReservationRefs s r → ReservationRefs t r
  ReservationRefs-Grows r h = record {
    user = g.users r.user_id h.user;
    restaurant = g.restaurants r.restaurant_id h.restaurant;
    table = h.table;
    table_found = rw g.tables h.table_found;
    same_restaurant = h.same_restaurant;
  }

  IsOwn-Grows : (user_id : ℕ) (i : Option ℕ) → IsOwn s user_id i → IsOwn t user_id i
  IsOwn-Grows user_id none h = tt
  IsOwn-Grows user_id (some i) h = g.bookings user_id i h

  OrderRefs-Grows : (o : Order) → OrderRefs s o → OrderRefs t o
  OrderRefs-Grows o h = record {
    user = g.users o.user_id h.user;
    restaurant = g.restaurants o.restaurant_id h.restaurant;
    reservation = IsOwn-Grows o.user_id o.reservation_id h.reservation;
    total = h.total;
  }

  -- A step after which all rows refer to rows that were there before it.
  pub Grows-IsConsistent :
      All (RestaurantRefs s) t.restaurants
      → All (ReservationRefs s) t.reservations
      → All (OrderRefs s) t.orders
      → IsConsistent t
  Grows-IsConsistent a b c = record {
    restaurants =
        All-map (RestaurantRefs s) (RestaurantRefs t) RestaurantRefs-Grows t.restaurants a;
    reservations =
        All-map (ReservationRefs s) (ReservationRefs t) ReservationRefs-Grows t.reservations b;
    orders = All-map (OrderRefs s) (OrderRefs t) OrderRefs-Grows t.orders c;
  }
