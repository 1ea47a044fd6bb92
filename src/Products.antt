-- ===== src/Products.antt =====
-- The catalogue in MongoDB (app/routers/products.py, app/schemas/product.py). A price is the decimal
-- that `str` prints of the float that is stored, as in Orders/Money.
pub mod Listing
pub mod Lines
pub mod Pricing
use restaurant_reservation_s.Prelude.{
  ℕ, ◌%◌, ◌≤◌, ◌+◌, ◌-◌, ◌*◌, ◌^◌, ◌<◌, ◌≡◌, Bool, true, false, not, ◌&&◌, ◌||◌, List, [], ◌∷◌,
  Option, none, some, ◌==◌, ltb, leb, text_eq, length, select, if◌then◌else◌,
}
use restaurant_reservation_s.Http.{
  Outcome, ok, raised, http_exception, malformed_product_id, product_not_found, validation_error,
}
use restaurant_reservation_s.Names.{Text}
use restaurant_reservation_s.Models.User.{User, staff, admin}
use restaurant_reservation_s.Security.{require_role}
use restaurant_reservation_s.Paging.{Page, paged, order_by}
use restaurant_reservation_s.Orders.Money.{Decimal}
use restaurant_reservation_s.Reservations.Requests.{Datetime}
use restaurant_reservation_s.Orders.Catalogue.{Product, Mongo, ObjectIds, find_product}
use restaurant_reservation_s.Reservations.Listing.{cons_outcome}

pub data Category : Type 0 where
  starter main dessert drink side : Category

abbrev pub category_text : Category → Text
category_text starter = b'S' ∷ b't' ∷ b'a' ∷ b'r' ∷ b't' ∷ b'e' ∷ b'r' ∷ []
category_text main = b'M' ∷ b'a' ∷ b'i' ∷ b'n' ∷ []
category_text dessert = b'D' ∷ b'e' ∷ b's' ∷ b's' ∷ b'e' ∷ b'r' ∷ b't' ∷ []
category_text drink = b'D' ∷ b'r' ∷ b'i' ∷ b'n' ∷ b'k' ∷ []
category_text side = b'S' ∷ b'i' ∷ b'd' ∷ b'e' ∷ []

pub record ProductCreate : Type 0 where
  pub restaurant_id : ℕ
  pub name : Text
  pub description : Option Text
  pub category : Category
  pub price : Decimal
  pub currency : Text
  pub is_available : Bool
  pub attributes : ℕ

abbrev pub short_enough : ℕ → Option Text → Bool
short_enough n none = true
short_enough n (some s) = leb (length s) n

-- max_digits=10, decimal_places=2: at most 8 digits before the point. Zeros at the end of the decimal
-- places do not count, and are left off.
abbrev pub price_fits : Decimal → Bool
price_fits x = leb x.places 2 && ltb (x.coefficient * 10 ^ (2 - x.places)) (10 ^ 10)

unfoldable pub validate_product : ProductCreate → Bool
validate_product b =
    ltb 0 b.restaurant_id
    && leb 2 (length b.name)
    && leb (length b.name) 150
    && short_enough 1000 b.description
    && price_fits b.price
    && length b.currency == 3

-- Python's floats, of which the source only uses the conversions: `float x` is the decimal that `str`
-- prints of float(x). A decimal of at most 15 digits, at most two of them after the point, comes back
-- with the same value.
pub record Floats : Type 0 where
  pub float : Decimal → Decimal
  pub float_exact :
      (x : Decimal)
      → x.coefficient < 10 ^ 15
      → x.places ≤ 2
      → (float x).coefficient * 10 ^ x.places ≡ x.coefficient * 10 ^ (float x).places

pub record ProductOut : Type 0 where
  pub id : Text
  pub restaurant_id : ℕ
  pub name : Text
  pub description : Option Text
  pub category : Text
  pub price : Decimal
  pub currency : Text
  pub is_available : Bool
  pub attributes : Option ℕ
  pub created_at : Option Datetime
  pub updated_at : Option Datetime

-- ProductOut.model_validate: a document that lacks a required field is a ValidationError.
abbrev pub built_out :
    Product
    → Option ℕ
    → Option Text
    → Option Text
    → Option Decimal
    → Option Text
    → Option Bool
    → Outcome ProductOut
built_out d (some r) (some n) (some c) (some p) (some u) (some a) = ok (record {
  id = d.id;
  restaurant_id = r;
  name = n;
  description = d.description;
  category = c;
  price = p;
  currency = u;
  is_available = a;
  attributes = d.attributes;
  created_at = d.created_at;
  updated_at = d.updated_at;
})
built_out d _ _ _ _ _ _ = raised validation_error

unfoldable pub product_out : Product → Outcome ProductOut
product_out d = built_out d d.restaurant_id d.name d.category d.price d.currency d.is_available

abbrev pub found_product : Option Product → Outcome ProductOut
found_product none = raised (http_exception 404 product_not_found)
found_product (some d) = product_out d

-- GET /api/v1/products/{id}
unfoldable pub get_product : ObjectIds → Text → Mongo → Outcome ProductOut
get_product ids i m = elim (ids.parse i) [
  | none ↦ raised (http_exception 400 malformed_product_id)
  | some oid ↦ found_product (find_product oid m.products)
]

-- The document that create_product inserts; `oid` is the id that the driver makes.
unfoldable pub new_product : Floats → Text → ℕ → ProductCreate → Product
new_product f oid now b = record {
  id = oid;
  restaurant_id = some b.restaurant_id;
  name = some b.name;
  price = some (f.float b.price);
  currency = some b.currency;
  is_available = some b.is_available;
  category = some (category_text b.category);
  description = b.description;
  attributes = some b.attributes;
  created_at = some (record { instant = now; is_aware = true });
  updated_at = some (record { instant = now; is_aware = true });
}

-- A time as BSON keeps it and the driver reads it back: in whole milliseconds, without a time zone.
abbrev pub bson_time : Option Datetime → Option Datetime
bson_time none = none
bson_time (some t) = some (record { instant = t.instant - t.instant % 1000; is_aware = false })

-- The document that is inserted, as it is read back later.
unfoldable pub read_back : Product → Product
read_back d = record d { created_at = bson_time d.created_at; updated_at = bson_time d.updated_at }

abbrev pub inserted : Outcome User → Product → Mongo → Outcome ProductOut × Mongo
inserted (raised x) d m = (raised x, m)
inserted (ok _) d m = (product_out d, record m { products = read_back d ∷ m.products })

-- POST /api/v1/products
unfoldable pub create_product :
    Floats → Text → ℕ → ProductCreate → User → Mongo → Outcome ProductOut × Mongo
unfolding new_product
create_product f oid now b current m =
    inserted (require_role (staff ∷ admin ∷ []) current) (new_product f oid now b) m
