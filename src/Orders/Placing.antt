-- ===== src/Orders/Placing.antt =====
-- `create_order` of app/services/orders.py: the checks in PostgreSQL, the reads from MongoDB, the
-- order and its items in one transaction, and the telemetry afterwards.
use restaurant_reservation_s.Prelude.{
  ℕ, ◌+◌, ◌*◌, Bool, true, false, not, ◌&&◌, List, [], ◌∷◌, Option, none, some, ◌==◌, ltb, leb, any,
  all, select, length, text_eq, if◌then◌else◌,
}
use restaurant_reservation_s.Http.{
  Outcome, ok, raised, http_exception, key_error, data_error, integrity_error, ck_order_items_qty,
  restaurant_not_found, reservation_not_found, reservation_of_another_user, malformed_product_id,
  unknown_product, product_of_another_restaurant, product_unavailable,
}
use restaurant_reservation_s.Names.{Text}
use restaurant_reservation_s.Models.Order.{Order, OrderItem, placed}
use restaurant_reservation_s.Database.{Db, Engine, find_restaurant, find_reservation}
use restaurant_reservation_s.Action.{Action, ◌>>=◌, ◌>>◌, require, find_or_raise, reading}
use restaurant_reservation_s.Orders.Money.{quantize}
use restaurant_reservation_s.Orders.Catalogue.{
  Product, OrderPlaced, Mongo, OrderItemIn, OrderCreate, ObjectIds, find_product,
}

abbrev pub hundred_million : ℕ
hundred_million = 10000000000

-- Step 1: the reservation, when one is named.
unfoldable pub check_reservation : ℕ → Option ℕ → Db → Outcome (Unit {0})
check_reservation user_id none s = ok tt
check_reservation user_id (some i) s = elim (find_reservation i s.reservations) [
  | none ↦ raised (http_exception 404 reservation_not_found)
  | some r ↦
      if r.user_id == user_id
      then ok tt
      else raised (http_exception 403 reservation_of_another_user)
]

abbrev pub is_parsed : Option Text → Bool
is_parsed none = false
is_parsed (some _) = true

-- Step 2: [ObjectId(item.product_id) for item in payload.items] raises InvalidId.
unfoldable pub is_malformed : ObjectIds → List OrderItemIn → Bool
is_malformed ids items = any (λ i. not (is_parsed (ids.parse i.product_id))) items

-- `_id in object_ids`
unfoldable pub names_product : ObjectIds → OrderItemIn → Product → Bool
names_product ids i d = elim (ids.parse i.product_id) [ none ↦ false | some t ↦ text_eq t d.id ]

-- find({"_id": {"$in": object_ids}})
unfoldable pub found_products : ObjectIds → List OrderItemIn → List Product → List Product
unfolding names_product
found_products ids items ds = select (λ d. any (λ i. names_product ids i d) items) ds

abbrev pub is_found : List Product → OrderItemIn → Bool
is_found found i = elim (find_product i.product_id found) [ none ↦ false | some _ ↦ true ]

-- doc.get("restaurant_id") == restaurant_id
abbrev pub sold_by : ℕ → Product → Bool
sold_by restaurant_id d = elim d.restaurant_id [ none ↦ false | some i ↦ i == restaurant_id ]

-- doc.get("is_available", False)
abbrev pub available : Product → Bool
available d = elim d.is_available [ none ↦ false | some b ↦ b ]

unfoldable pub check_products : ℕ → List OrderItemIn → List Product → Outcome (Unit {0})
check_products restaurant_id items found =
    if not (all (is_found found) items)
    then raised (http_exception 404 unknown_product)
    else if not (all (sold_by restaurant_id) found)
    then raised (http_exception 400 product_of_another_restaurant)
    else if not (all available found)
    then raised (http_exception 409 product_unavailable)
    else ok tt

abbrev pub item_of : OrderItemIn → Option Text → Option ℕ → Outcome OrderItem
item_of i (some name) (some price) = ok (record {
  product_id = i.product_id;
  product_name = name;
  unit_price = price;
  quantity = i.quantity;
  selected_attributes = i.selected_attributes;
})
item_of i _ _ = raised key_error

abbrev pub price_of : Product → Option ℕ
price_of d = elim d.price [ none ↦ none | some x ↦ some (quantize x) ]

-- Step 3: one row of the order. A document with no price or name is a KeyError.
unfoldable pub order_item : List Product → OrderItemIn → Outcome OrderItem
order_item found i = elim (find_product i.product_id found) [
  | none ↦ raised key_error
  | some d ↦ item_of i d.name (price_of d)
]

abbrev pub cons_item : Outcome OrderItem → Outcome (List OrderItem) → Outcome (List OrderItem)
cons_item (ok x) (ok xs) = ok (x ∷ xs)
cons_item (ok x) (raised e) = raised e
cons_item (raised e) _ = raised e

-- The loop over payload.items.
unfoldable pub order_items : List Product → List OrderItemIn → Outcome (List OrderItem)
unfolding order_item
order_items found [] = ok []
order_items found (i ∷ is) = cons_item (order_item found i) (order_items found is)

-- The running total of the loop.
unfoldable pub add_up : ℕ → List OrderItem → ℕ
add_up total [] = total
add_up total (x ∷ xs) = add_up (total + x.unit_price * x.quantity) xs

abbrev pub currency_of : Option Product → Text
currency_of none = []
currency_of (some d) = elim d.currency [ none ↦ b'T' ∷ b'H' ∷ b'B' ∷ [] | some c ↦ c ]

-- The currency of the product that the first item names.
unfoldable pub order_currency : List Product → List OrderItemIn → Text
order_currency found [] = []
order_currency found (i ∷ _) = currency_of (find_product i.product_id found)

-- NUMERIC(10, 2) holds the prices and the total.
unfoldable pub amounts_fit : ℕ → List OrderItem → Bool
amounts_fit total items =
    ltb total hundred_million && all (λ x. ltb x.unit_price hundred_million) items

-- VARCHAR(150) holds the names and VARCHAR(3) the currency.
unfoldable pub texts_fit : Text → List OrderItem → Bool
texts_fit currency items =
    leb (length currency) 3 && all (λ x. leb (length x.product_name) 150) items

-- CHECK (quantity > 0 AND quantity <= 50)
unfoldable pub quantity_check : List OrderItem → Bool
quantity_check items = all (λ x. ltb 0 x.quantity && leb x.quantity 50) items

-- INSERT INTO orders and order_items, and COMMIT. A value that its column does not hold is a
-- DataError. (A price of more than 26 digits already makes `quantize` raise; it ends here too.)
unfoldable pub insert_order : Engine → Order → Action Order
insert_order e o s =
    if not (amounts_fit o.total_amount o.items && texts_fit o.currency o.items)
    then (raised data_error, s)
    else if not (quantity_check o.items)
    then (raised (integrity_error ck_order_items_qty), s)
    else (let row : Order = record o { id = e.next_order_id s.orders; created_at = e.now } in
        (ok row, record s { orders = row ∷ s.orders }))

unfoldable pub new_order : ℕ → OrderCreate → List Product → List OrderItem → Order
new_order user_id b found items = record {
  id = 0;
  user_id = user_id;
  restaurant_id = b.restaurant_id;
  reservation_id = b.reservation_id;
  status = placed;
  total_amount = add_up 0 items;
  currency = order_currency found b.items;
  items = items;
  created_at = 0;
}

-- Step 3, from the products that were found.
unfoldable pub save_order : Engine → List Product → ℕ → OrderCreate → Action Order
save_order e found user_id b = do
  items ← reading (λ s. order_items found b.items)
  insert_order e (new_order user_id b found items)

-- Steps 1 to 3.
unfoldable pub place_order : Engine → ObjectIds → List Product → ℕ → OrderCreate → Action Order
place_order e ids products user_id b = do
  restaurant ←
      find_or_raise (λ s. find_restaurant b.restaurant_id s.restaurants) 404 restaurant_not_found
  reading (check_reservation user_id b.reservation_id)
  require (not (is_malformed ids b.items)) 400 malformed_product_id
  reading (λ s. check_products b.restaurant_id b.items (found_products ids b.items products))
  save_order e (found_products ids b.items products) user_id b

abbrev pub placed_event : Order → OrderPlaced
placed_event o = record {
  user_id = o.user_id;
  order_id = o.id;
  restaurant_id = o.restaurant_id;
  item_count = length o.items;
  total_amount = o.total_amount;
}

-- Step 4: the telemetry, whose failure is only logged. `logged` says whether the write succeeds.
abbrev pub log_event : Bool → Outcome Order → Mongo → Mongo
log_event logged (raised x) m = m
log_event logged (ok o) m =
    if logged then record m { user_telemetry = placed_event o ∷ m.user_telemetry } else m

unfoldable pub create_order :
    Engine → ObjectIds → Bool → ℕ → OrderCreate → Db → Mongo → Outcome Order × Db × Mongo
create_order e ids logged user_id b s m =
    let (r, t) = place_order e ids m.products user_id b s in (r, t, log_event logged r m)
