-- ===== src/Tests/World.antt =====
-- One concrete world: an engine that counts, a small database, two product documents, and simple
-- stand-ins for the libraries.
use restaurant_reservation_s.Prelude.{
  ℕ, suc, ◌+◌, ◌≤◌, ◌<◌, ◌≡◌, ◌≢◌, refl, true, false, List, [], ◌∷◌, none, some, All, arith, inl,
}
use restaurant_reservation_s.Names.{Text}
use restaurant_reservation_s.Models.User.{User, customer}
use restaurant_reservation_s.Models.Restaurant.{Restaurant, RestaurantTable}
use restaurant_reservation_s.Models.Reservation.{Reservation, Changes, apply, confirmed, cancelled}
use restaurant_reservation_s.Models.Order.{Order, placed}
use restaurant_reservation_s.Database.{Db, Engine}
use restaurant_reservation_s.Migration.Revisions.{initial_columns}
use restaurant_reservation_s.Reservations.Requests.{ReservationCreate}

module _ {A : Type 0} (f : A → ℕ) where
  -- A number above f of every entry.
  abbrev pub above : List A → ℕ
  above [] = 1
  above (a ∷ xs) = suc (f a) + above xs

  pub above-All : (xs : List A) (n : ℕ) → above xs ≤ n → All (λ a. f a < n) xs
  above-All [] n h = tt
  above-All (a ∷ xs) n h = (omega (arith, h), above-All xs n (omega (arith, h)))

pub below-ne : (us : List User) (n : ℕ) → All (λ u. u.id < n) us → All (λ u. u.id ≢ n) us
below-ne [] n h = tt
below-ne (u ∷ us) n h = (omega arith, below-ne us n h.1)

pub never : (r : Reservation) (c : Changes) → true ≡ false → apply c r ≡ r
never r c h = cc h

abbrev pub engine : Engine
engine = record {
  next_reservation_id = above (λ r. r.id);
  next_order_id = above (λ o. o.id);
  next_user_id = above (λ u. u.id);
  next_xid = above (λ r. r.version);
  now = 1000;
  report = λ c cs. c;
  emits = λ r c. true;
  fresh_reservation_id = λ rs. above-All (λ r. r.id) rs _ (omega arith);
  fresh_order_id = λ os. above-All (λ o. o.id) os _ (omega arith);
  fresh_user_id = λ us. below-ne us _ (above-All (λ u. u.id) us _ (omega arith));
  not_emitted = λ r c h. never r c h;
  report_IsIn = λ c cs. inl refl;
  fresh_xid = λ rs. above-All (λ r. r.version) rs _ (omega arith);
}

abbrev pub ana : Text
ana = b'A' ∷ b'n' ∷ b'a' ∷ b' ' ∷ b'L' ∷ b'i' ∷ b'm' ∷ []

abbrev pub email : Text
email = b'a' ∷ b'@' ∷ b'x' ∷ []

abbrev pub user : User
user = record {
  id = 7;
  email = email;
  password_hash = b'p' ∷ b'w' ∷ [];
  full_name = ana;
  phone = none;
  role = customer;
  is_active = true;
  created_at = 0;
}

abbrev pub restaurant : Restaurant
restaurant = record {
  id = 1;
  owner_id = 9;
  name = ana;
  cuisine = ana;
  city = ana;
  address = ana;
  price_range = 2;
  avg_rating = some 45;
  created_at = 0;
}

abbrev pub table : RestaurantTable
table = record {
  id = 3;
  restaurant_id = 1;
  table_number = b'1' ∷ [];
  capacity = 4;
  is_active = true;
}

abbrev pub booking : Reservation
booking = record {
  id = 1;
  user_id = 7;
  restaurant_id = 1;
  restaurant_table_id = 3;
  guest_name = some ana;
  first_name = none;
  last_name = none;
  party_size = 2;
  starts_at = 100;
  ends_at = 200;
  status = confirmed;
  created_at = 0;
  version = 5;
}

-- The same table and time, cancelled.
abbrev pub cancelled_booking : Reservation
cancelled_booking = record booking { id = 2; status = cancelled; version = 6 }

abbrev pub order : Order
order = record {
  id = 4;
  user_id = 7;
  restaurant_id = 1;
  reservation_id = some 1;
  status = placed;
  total_amount = 250;
  currency = b'T' ∷ b'H' ∷ b'B' ∷ [];
  items = [];
  created_at = 0;
}

abbrev pub before : Db
before = record {
  users = user ∷ [];
  restaurants = restaurant ∷ [];
  tables = table ∷ [];
  reservations = booking ∷ cancelled_booking ∷ [];
  orders = order ∷ [];
  columns = initial_columns;
}

-- A request for the hour after the booking.
abbrev pub request : ReservationCreate
request = record {
  restaurant_id = 1;
  restaurant_table_id = 3;
  guest_name = ana;
  party_size = 2;
  starts_at = 200;
  ends_at = 300;
}
