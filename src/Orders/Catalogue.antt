-- ===== src/Orders/Catalogue.antt =====
-- The documents of MongoDB that orders use (app/db/mongo.py, products and user_telemetry), and the
-- bodies of the order requests (app/schemas/order.py).
use restaurant_reservation_s.Prelude.{
  ℕ, ◌≡◌, Bool, true, ◌&&◌, ◌||◌, List, [], ◌∷◌, Option, none, some, ◌==◌, ltb, leb, all, length,
  text_eq, if◌then◌else◌,
}
use restaurant_reservation_s.Names.{Text}
use restaurant_reservation_s.Orders.Money.{Decimal}
use restaurant_reservation_s.Reservations.Requests.{Datetime}

-- A document of a product. `id` is str(_id); a field that the document may lack is an Option.
-- `attributes` is an opaque number.
pub record Product : Type 0 where
  pub id : Text
  pub restaurant_id : Option ℕ
  pub name : Option Text
  pub price : Option Decimal
  pub currency : Option Text
  pub is_available : Option Bool
  pub category : Option Text
  pub description : Option Text
  pub attributes : Option ℕ
  pub created_at : Option Datetime
  pub updated_at : Option Datetime

pub record OrderPlaced : Type 0 where
  pub user_id : ℕ
  pub order_id : ℕ
  pub restaurant_id : ℕ
  pub item_count : ℕ
  pub total_amount : ℕ

pub record Mongo : Type 0 where
  pub products : List Product
  pub user_telemetry : List OrderPlaced

pub record OrderItemIn : Type 0 where
  pub product_id : Text
  pub quantity : ℕ
  pub selected_attributes : Option ℕ

pub record OrderCreate : Type 0 where
  pub restaurant_id : ℕ
  pub reservation_id : Option ℕ
  pub items : List OrderItemIn

abbrev pub is_hex : ℕ → Bool
is_hex c = (leb b'0' c && leb c b'9') || (leb b'a' c && leb c b'f') || (leb b'A' c && leb c b'F')

-- What Pydantic checks of an item and of an order.
unfoldable pub item_fits : OrderItemIn → Bool
item_fits i =
    length i.product_id == 24 && all is_hex i.product_id && ltb 0 i.quantity && leb i.quantity 50

abbrev pub positive_id : Option ℕ → Bool
positive_id none = true
positive_id (some n) = ltb 0 n

unfoldable pub validate_order : OrderCreate → Bool
unfolding item_fits
validate_order b =
    ltb 0 b.restaurant_id
    && positive_id b.reservation_id
    && leb 1 (length b.items)
    && leb (length b.items) 50
    && all item_fits b.items

-- bson.ObjectId, which the source only calls: `parse s` is str(ObjectId(s)), or none for InvalidId.
-- The text of an ObjectId is read back as itself.
pub record ObjectIds : Type 0 where
  pub parse : Text → Option Text
  pub parse_idem : (s t : Text) → parse s ≡ some t → parse t ≡ some t

-- `found[product_id]`
unfoldable pub find_product : Text → List Product → Option Product
find_product i [] = none
find_product i (d ∷ ds) = if text_eq d.id i then some d else find_product i ds
