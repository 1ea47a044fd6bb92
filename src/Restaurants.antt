-- ===== src/Restaurants.antt =====
-- Restaurants: search, detail, table availability and creation (app/routers/restaurants.py,
-- app/schemas/restaurant.py).
pub mod Availability
use restaurant_reservation_s.Prelude.{
  ℕ, Bool, true, false, not, ◌&&◌, ◌||◌, List, [], ◌∷◌, Option, none, some, ◌==◌, ltb, leb, any,
  map, select, text_eq, length, if◌then◌else◌,
}
use restaurant_reservation_s.Http.{
  Outcome, ok, raised, http_exception, type_error, bad_window, restaurant_not_found,
}
use restaurant_reservation_s.Names.{Text}
use restaurant_reservation_s.Models.User.{User, staff, admin}
use restaurant_reservation_s.Security.{guarded}
use restaurant_reservation_s.Models.Restaurant.{Restaurant, RestaurantTable}
use restaurant_reservation_s.Models.Reservation.{Reservation, is_cancelled, ranges_overlap}
use restaurant_reservation_s.Database.{Db, Engine, find_restaurant}
use restaurant_reservation_s.Reservations.Requests.{Datetime}
use restaurant_reservation_s.Action.{Action, find_or_raise}
use restaurant_reservation_s.Paging.{Page, paged, order_by}

-- The query parameters of the search. None and the empty text leave a filter out.
pub record Search : Type 0 where
  pub city : Option Text
  pub cuisine : Option Text
  pub max_price_range : Option ℕ
  pub min_rating : Option ℕ

abbrev pub text_filter : Option Text → Text → Bool
text_filter none v = true
text_filter (some []) v = true
text_filter (some (c ∷ s)) v = text_eq v (c ∷ s)

abbrev pub at_most : Option ℕ → ℕ → Bool
at_most none v = true
at_most (some n) v = leb v n

-- A NULL rating satisfies no comparison.
abbrev pub at_least : Option ℕ → Option ℕ → Bool
at_least none v = true
at_least (some n) none = false
at_least (some n) (some v) = leb n v

unfoldable pub matches : Search → Restaurant → Bool
matches q r =
    text_filter q.city r.city
    && text_filter q.cuisine r.cuisine
    && at_most q.max_price_range r.price_range
    && at_least q.min_rating r.avg_rating

-- ORDER BY avg_rating DESC NULLS LAST, id
abbrev pub rating_before : Option ℕ → Option ℕ → ℕ → ℕ → Bool
rating_before none none i j = leb i j
rating_before none (some b) i j = false
rating_before (some a) none i j = true
rating_before (some a) (some b) i j = ltb b a || (a == b && leb i j)

unfoldable pub better : Restaurant → Restaurant → Bool
better x y = rating_before x.avg_rating y.avg_rating x.id y.id

-- The columns that the list shows.
pub record RestaurantSummary : Type 0 where
  pub id : ℕ
  pub name : Text
  pub cuisine : Text
  pub city : Text
  pub price_range : ℕ
  pub avg_rating : Option ℕ

abbrev pub summary : Restaurant → RestaurantSummary
summary r = record {
  id = r.id;
  name = r.name;
  cuisine = r.cuisine;
  city = r.city;
  price_range = r.price_range;
  avg_rating = r.avg_rating;
}

-- GET /api/v1/restaurants
unfoldable pub search_restaurants : ℕ → ℕ → Search → Db → Page RestaurantSummary
unfolding matches better
search_restaurants page limit q s =
    paged page limit (map summary (order_by better (select (matches q) s.restaurants)))

-- GET /api/v1/restaurants/{id}
unfoldable pub get_restaurant : ℕ → Action Restaurant
get_restaurant i = find_or_raise (λ s. find_restaurant i s.restaurants) 404 restaurant_not_found

pub record AvailabilitySlot : Type 0 where
  pub restaurant_table_id : ℕ
  pub table_number : Text
  pub capacity : ℕ
  pub available : Bool

-- EXISTS (a reservation of the table that is not cancelled and overlaps the window)
unfoldable pub taken : ℕ → ℕ → ℕ → List Reservation → Bool
taken table_id starts_at ends_at rs =
    any
      (λ r.
        r.restaurant_table_id == table_id
        && not (is_cancelled r.status)
        && ranges_overlap r.starts_at r.ends_at starts_at ends_at)
      rs

unfoldable pub slot : ℕ → ℕ → Db → RestaurantTable → AvailabilitySlot
slot starts_at ends_at s t = record {
  restaurant_table_id = t.id;
  table_number = t.table_number;
  capacity = t.capacity;
  available = not (taken t.id starts_at ends_at s.reservations);
}

abbrev pub offers : ℕ → ℕ → RestaurantTable → Bool
offers restaurant_id party_size t =
    t.restaurant_id == restaurant_id && t.is_active && leb party_size t.capacity

abbrev same_flag : Bool → Bool → Bool
same_flag true b = b
same_flag false b = not b

-- GET /api/v1/restaurants/{id}/availability. Python refuses to compare a timestamp that has an offset
-- with one that has none; the server's zone gives the instant of one that has none.
unfoldable pub check_availability :
    ℕ → Datetime → Datetime → ℕ → Db → Outcome (List AvailabilitySlot)
check_availability restaurant_id starts_at ends_at party_size s =
    if not (same_flag starts_at.is_aware ends_at.is_aware)
    then raised type_error
    else if leb ends_at.instant starts_at.instant
    then raised (http_exception 400 bad_window)
    else ok (
        map (slot starts_at.instant ends_at.instant s)
          (order_by (λ t u. leb t.id u.id) (select (offers restaurant_id party_size) s.tables)))

pub record RestaurantCreate : Type 0 where
  pub name : Text
  pub cuisine : Text
  pub city : Text
  pub address : Text
  pub price_range : ℕ

abbrev pub between : ℕ → ℕ → Text → Bool
between lo hi s = leb lo (length s) && leb (length s) hi

unfoldable pub validate_restaurant : RestaurantCreate → Bool
validate_restaurant b =
    between 2 150 b.name
    && between 2 60 b.cuisine
    && between 2 80 b.city
    && leb 4 (length b.address)
    && leb 1 b.price_range
    && leb b.price_range 4

-- The row that create_restaurant adds and commits; `new_id` is the sequence's next value.
unfoldable pub insert_restaurant : Engine → ℕ → ℕ → RestaurantCreate → Action Restaurant
insert_restaurant e new_id owner_id b s =
    let row : Restaurant = record {
      id = new_id;
      owner_id = owner_id;
      name = b.name;
      cuisine = b.cuisine;
      city = b.city;
      address = b.address;
      price_range = b.price_range;
      avg_rating = none;
      created_at = e.now;
    } in
    (ok row, record s { restaurants = row ∷ s.restaurants })

-- POST /api/v1/restaurants
unfoldable pub create_restaurant : Engine → ℕ → RestaurantCreate → User → Action Restaurant
create_restaurant e new_id b current =
    guarded (staff ∷ admin ∷ []) current (insert_restaurant e new_id current.id b)
