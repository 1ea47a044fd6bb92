-- ===== src/Seed/Postgres.antt =====
-- The rows of PostgreSQL that scripts/seed.py adds to empty tables (seed_postgres), beside the
-- reservations. uuid.uuid5, hashlib.sha1 and bcrypt are parameters, and what `random` and Faker draw is
-- an input.
use restaurant_reservation_s.Prelude.{
  ℕ, suc, ◌+◌, ◌*◌, ◌/◌, ◌%◌, true, ◌||◌, List, [], ◌∷◌, ◌++◌, Option, none, some, map, select,
  take, length, range, get_elem?,
}
use restaurant_reservation_s.Names.{Text}
use restaurant_reservation_s.Models.User.{User, staff, admin, role_eq}
use restaurant_reservation_s.Models.Restaurant.{Restaurant, RestaurantTable}
use restaurant_reservation_s.Models.Order.{Order, OrderItem, OrderStatus}
use restaurant_reservation_s.Database.{Db}
use restaurant_reservation_s.Reservations.Etag.{decimal}
use restaurant_reservation_s.Seed.{Draw, seed_role, seed_reservations}

abbrev pub n_users : ℕ
n_users = 200

abbrev pub n_restaurants : ℕ
n_restaurants = 40

abbrev pub tables_per_restaurant : ℕ
tables_per_restaurant = 6

abbrev pub n_orders : ℕ
n_orders = 400

abbrev pub n_products : ℕ
n_products = 800

-- `:04d`, for a number of at most four digits.
abbrev pub four_digits : ℕ → Text
four_digits i =
    (b'0' + i / 1000 % 10) ∷ (b'0' + i / 100 % 10) ∷ (b'0' + i / 10 % 10) ∷ (b'0' + i % 10) ∷ []

abbrev user_prefix : Text
user_prefix = b'u' ∷ b's' ∷ b'e' ∷ b'r' ∷ []

abbrev at_tableflow : Text
at_tableflow =
    b'@' ∷ b't' ∷ b'a' ∷ b'b' ∷ b'l' ∷ b'e' ∷ b'f' ∷ b'l' ∷ b'o' ∷ b'w' ∷ b'.' ∷ b'i' ∷ b'o' ∷ []

unfoldable pub user_email : ℕ → Text
user_email i = user_prefix ++ four_digits i ++ at_tableflow

-- What is drawn for an account: fake.name() and fake.msisdn().
pub record UserDraw : Type 0 where
  pub full_name : Text
  pub msisdn : Text

pub record RestaurantDraw : Type 0 where
  pub name : Text
  pub cuisine : Text
  pub city : Text
  pub address : Text
  pub price_range : ℕ
  pub avg_rating : ℕ

-- What is drawn for an item. `unit` is a number of hundredths, and the attributes are opaque.
pub record ItemDraw : Type 0 where
  pub product_index : ℕ
  pub unit : ℕ
  pub quantity : ℕ
  pub product_name : Text
  pub attributes : ℕ

pub record OrderDraw : Type 0 where
  pub restaurant_id : ℕ
  pub user_id : ℕ
  pub status : OrderStatus
  pub items : List ItemDraw

-- All that is drawn, by the number of the row.
pub record Draws : Type 0 where
  pub users : ℕ → UserDraw
  pub restaurants : ℕ → RestaurantDraw
  pub capacities : ℕ → ℕ
  pub reservations : List Draw
  pub orders : ℕ → OrderDraw

-- The functions of libraries: uuid.uuid5(NS, ...) as the number of the UUID, the hex digest of
-- hashlib.sha1, and the hash of the demo password.
pub record Digests : Type 0 where
  pub uuid5 : Text → ℕ
  pub sha1 : Text → Text
  pub demo_hash : Text

abbrev seed_text : Text
seed_text = b'4' ∷ b'2' ∷ b'4' ∷ b'2' ∷ b'4' ∷ b'2' ∷ []

-- str(stable_oid(kind, n))
unfoldable pub stable_oid : Digests → Text → ℕ → Text
stable_oid g kind n = take 24 (g.sha1 (kind ++ b':' ∷ decimal n ++ b':' ∷ seed_text))

unfoldable pub seeded_user : Digests → (ℕ → UserDraw) → ℕ → User
seeded_user g d i = record {
  id = g.uuid5 (user_email i);
  email = user_email i;
  password_hash = g.demo_hash;
  full_name = (d i).full_name;
  phone = some (take 10 (d i).msisdn);
  role = seed_role i;
  is_active = true;
  created_at = 0;
}

unfoldable pub seed_users : Digests → (ℕ → UserDraw) → List User
seed_users g d = map (seeded_user g d) (range 0 n_users)

unfoldable pub staff_of : List User → List User
staff_of us = select (λ u. role_eq u.role staff || role_eq u.role admin) us

unfoldable pub seeded_restaurant : RestaurantDraw → ℕ → User → Restaurant
seeded_restaurant d i owner = record {
  id = suc i;
  owner_id = owner.id;
  name = d.name;
  cuisine = d.cuisine;
  city = d.city;
  address = d.address;
  price_range = d.price_range;
  avg_rating = some d.avg_rating;
  created_at = 0;
}

-- The loop over the numbers of the restaurants; none where staff[i % len(staff)] raises.
unfoldable pub seed_restaurants :
    List User → (ℕ → RestaurantDraw) → List ℕ → Option (List Restaurant)
seed_restaurants us d [] = some []
seed_restaurants us d (i ∷ is) =
    let rest = seed_restaurants us d is in
    elim (get_elem? (i % length us) us) [
      | none ↦ none
      | some u ↦ elim rest [ none ↦ none | some rs ↦ some (seeded_restaurant (d i) i u ∷ rs) ]
    ]

unfoldable pub seeded_table : (ℕ → ℕ) → ℕ → ℕ → ℕ → RestaurantTable
seeded_table capacities restaurant_id next t = record {
  id = next + t;
  restaurant_id = restaurant_id;
  table_number = b'T' ∷ decimal (t + 1);
  capacity = capacities (next + t);
  is_active = true;
}

-- The two loops; `next` is the id of the next row.
unfoldable pub seed_tables : (ℕ → ℕ) → ℕ → List Restaurant → List RestaurantTable
seed_tables capacities next [] = []
seed_tables capacities next (r ∷ rs) =
    map (seeded_table capacities r.id next) (range 0 tables_per_restaurant)
    ++ seed_tables capacities (next + tables_per_restaurant) rs

abbrev pub product_kind : Text
product_kind = b'p' ∷ b'r' ∷ b'o' ∷ b'd' ∷ b'u' ∷ b'c' ∷ b't' ∷ []

unfoldable pub seeded_item : Digests → ItemDraw → OrderItem
seeded_item g d = record {
  product_id = stable_oid g product_kind d.product_index;
  product_name = d.product_name;
  unit_price = d.unit;
  quantity = d.quantity;
  selected_attributes = some d.attributes;
}

-- The loop over the items of an order, with the total so far and the items so far.
unfoldable pub add_items : Digests → ℕ → List OrderItem → List ItemDraw → ℕ × List OrderItem
add_items g total items [] = (total, items)
add_items g total items (d ∷ ds) =
    add_items g (total + d.unit * d.quantity) (items ++ seeded_item g d ∷ []) ds

abbrev pub baht : Text
baht = b'T' ∷ b'H' ∷ b'B' ∷ []

unfoldable pub seeded_order : Digests → OrderDraw → ℕ → Order
seeded_order g d i = record {
  id = suc i;
  user_id = d.user_id;
  restaurant_id = d.restaurant_id;
  reservation_id = none;
  status = d.status;
  total_amount = (add_items g 0 [] d.items).0;
  currency = baht;
  items = (add_items g 0 [] d.items).1;
  created_at = 0;
}

-- The accounts, restaurants and tables.
unfoldable pub seed_base : Digests → Draws → Db → Option Db
seed_base g d s =
    let users = seed_users g d.users in
    elim (seed_restaurants (staff_of users) d.restaurants (range 0 n_restaurants)) [
      | none ↦ none
      | some rs ↦
          some
            (record s { users = users; restaurants = rs; tables = seed_tables d.capacities 1 rs })
    ]

unfoldable pub seed_orders : Digests → (ℕ → OrderDraw) → Db → Db
seed_orders g d s = record s { orders = map (λ i. seeded_order g (d i) i) (range 0 n_orders) }

-- seed_postgres on empty tables, for n reservations; midnight 14 days ago is `first`.
unfoldable pub seed_postgres : Digests → Draws → ℕ → ℕ → Db → Option Db
seed_postgres g d first n s = elim (seed_base g d s) [
  | none ↦ none
  | some base ↦ elim (seed_reservations first n d.reservations base) [
    | none ↦ none
    | some booked ↦ some (seed_orders g d.orders booked)
  ]
]
