-- ===== src/Orders/Receipt.antt =====
-- What a placed order records: `create_order` of app/services/orders.py.
use restaurant_reservation_s.Prelude.{
  ◌⊎◌, ℕ, ◌+◌, ◌*◌, ◌≡◌, refl, ap, ◌∙◌, if◌then◌else◌, length, All, Bool, true, false, List, [],
  ◌∷◌, Option, none, some, all, arith, Option-cases, inl, inr,
}
use restaurant_reservation_s.Http.{Outcome, ok, raised, Exception}
use restaurant_reservation_s.Names.{Text}
use restaurant_reservation_s.Models.Order.{Order, OrderItem}
use restaurant_reservation_s.Models.Reservation.{Reservation}
use restaurant_reservation_s.Database.{Db, Engine, find_reservation}
use restaurant_reservation_s.Orders.Money.{Decimal, quantize}
use restaurant_reservation_s.Orders.Catalogue.{
  Product, Mongo, OrderItemIn, OrderCreate, ObjectIds, find_product,
}
use restaurant_reservation_s.Orders.Placing.{
  check_reservation, found_products, check_products, sold_by, available, item_of, order_item,
  cons_item, order_items, add_up, amounts_fit, insert_order, new_order, save_order, place_order,
  create_order, log_event,
}

-- The total as a plain sum over the lines.
abbrev pub line_total : List OrderItem → ℕ
line_total [] = 0
line_total (x ∷ xs) = x.unit_price * x.quantity + line_total xs

add_up-line_total : (t : ℕ) (xs : List OrderItem) → add_up t xs ≡ t + line_total xs
unfolding add_up
add_up-line_total t [] = omega arith
add_up-line_total t (x ∷ xs) = omega (arith, add_up-line_total (t + x.unit_price * x.quantity) xs)

total_of_lines : (xs : List OrderItem) → add_up 0 xs ≡ line_total xs
total_of_lines xs = omega (arith, add_up-line_total 0 xs)

-- A line of the order is what the client asked for, at the catalogue's name and price.
pub record IsLineOf (found : List Product) (i : OrderItemIn) (x : OrderItem) : Type 0 where
  pub product : Product
  pub in_catalogue : find_product i.product_id found ≡ some product
  pub name : product.name ≡ some x.product_name
  pub amount : Decimal
  pub has_price : product.price ≡ some amount
  pub price : x.unit_price ≡ quantize amount
  pub product_id : x.product_id ≡ i.product_id
  pub quantity : x.quantity ≡ i.quantity
  pub attributes : x.selected_attributes ≡ i.selected_attributes

-- The product is of this restaurant and for sale.
abbrev pub IsSold : ℕ → Product → Type 0
IsSold restaurant_id d = (d.restaurant_id ≡ some restaurant_id) × (d.is_available ≡ some true)

sold_by-eq :
    (restaurant_id : ℕ) (d : Product)
    → sold_by restaurant_id d ≡ true
    → d.restaurant_id ≡ some restaurant_id
sold_by-eq restaurant_id d h = elim (Option-cases d.restaurant_id) [
  | inl missing ↦ absurd (ground (arith, missing, h))
  | inr (i, there) ↦ ground (arith, there, h)
]

available-eq : (d : Product) → available d ≡ true → d.is_available ≡ some true
available-eq d h = elim (Option-cases d.is_available) [
  | inl missing ↦ absurd (ground (arith, missing, h))
  | inr (b, there) ↦ ground (arith, there, h)
]

all-IsSold :
    (restaurant_id : ℕ) (ds : List Product)
    → all (sold_by restaurant_id) ds ≡ true
    → all available ds ≡ true
    → All (IsSold restaurant_id) ds
all-IsSold restaurant_id [] h k = tt
all-IsSold restaurant_id (d ∷ ds) h k = (
  (sold_by-eq restaurant_id d (ground (arith, h)), available-eq d (ground (arith, k))),
  all-IsSold restaurant_id ds (ground (arith, h)) (ground (arith, k)),
)

-- A reservation that is named is there and is the user's own.
abbrev pub IsOwn : Db → ℕ → Option ℕ → Type 0
IsOwn s user_id none = Unit
IsOwn s user_id (some i) =
    (r : Reservation) × (find_reservation i s.reservations ≡ some r) × (r.user_id ≡ user_id)

check_reservation-IsOwn :
    (user_id : ℕ) (i : Option ℕ) (s : Db)
    → check_reservation user_id i s ≡ ok tt
    → IsOwn s user_id i
unfolding check_reservation
check_reservation-IsOwn user_id none s h = tt
check_reservation-IsOwn user_id (some i) s h =
    elim (Option-cases (find_reservation i s.reservations)) [
      | inl missing ↦ absurd (ground (arith, missing, h))
      | inr (r, there) ↦ (r, there, ground (arith, there, h))
    ]

-- One line for each item of the request, in its order.
abbrev pub AreLinesOf : List Product → List OrderItemIn → List OrderItem → Type 0
AreLinesOf found [] [] = Unit
AreLinesOf found (i ∷ is) (x ∷ xs) = IsLineOf found i x × AreLinesOf found is xs
AreLinesOf found _ _ = ⊥

item_of-IsLineOf :
    (found : List Product) (i : OrderItemIn) (d : Product) (n : Option Text) (y : Option Decimal)
    {x : OrderItem}
    → find_product i.product_id found ≡ some d
    → d.name ≡ n
    → d.price ≡ y
    → item_of i n (elim y [ none ↦ none | some z ↦ some (quantize z) ]) ≡ ok x
    → IsLineOf found i x
item_of-IsLineOf found i d none y f en ey h = cc
item_of-IsLineOf found i d (some n) none f en ey h = cc
item_of-IsLineOf found i d (some n) (some y) {x = x} f en ey h = record {
  product = d;
  in_catalogue = f;
  name = ground (arith, en);
  amount = y;
  has_price = ey;
  price = ground arith;
  product_id = ground arith;
  quantity = ground arith;
  attributes = ground arith;
}

order_item-IsLineOf :
    (found : List Product) (i : OrderItemIn) {x : OrderItem}
    → order_item found i ≡ ok x
    → IsLineOf found i x
unfolding order_item
order_item-IsLineOf found i {x = x} h = elim (Option-cases (find_product i.product_id found)) [
  | inl missing ↦ absurd (ground (arith, missing))
  | inr (d, f) ↦ item_of-IsLineOf found i d d.name d.price f refl refl (ground (arith, f))
]

cons_item-eq-ok :
    (a : Outcome OrderItem) (as' : Outcome (List OrderItem)) {xs : List OrderItem}
    → cons_item a as' ≡ ok xs
    → (x : OrderItem) × (ys : List OrderItem) × (a ≡ ok x) × (as' ≡ ok ys) × (xs ≡ x ∷ ys)
cons_item-eq-ok (ok x) (ok ys) h = (x, ys, refl, refl, cc)
cons_item-eq-ok (ok x) (raised e) h = cc
cons_item-eq-ok (raised e) as' h = cc

order_items-AreLinesOf :
    (found : List Product) (is : List OrderItemIn) (xs : List OrderItem)
    → order_items found is ≡ ok xs
    → AreLinesOf found is xs
unfolding order_items
order_items-AreLinesOf found [] [] h = tt
order_items-AreLinesOf found [] (x ∷ xs) h = cc
order_items-AreLinesOf found (i ∷ is) [] h =
    let (y, ys, _, _, e) = cons_item-eq-ok (order_item found i) (order_items found is) h in cc e
order_items-AreLinesOf found (i ∷ is) (x ∷ xs) h =
    let (y, ys, a, r, e) = cons_item-eq-ok (order_item found i) (order_items found is) h in
    (
      order_item-IsLineOf found i (ground (arith, a, e)),
      order_items-AreLinesOf found is xs (ground (arith, r, e)),
    )

module _ (e : Engine) (ids : ObjectIds) (products : List Product) (user_id : ℕ)
    (b : OrderCreate) where
  abbrev pub found : List Product
  found = found_products ids b.items products

  -- Every check has passed when an order is returned, and what is left is step 3.
  pub place_order-eq-ok :
      (s : Db) {o : Order}
      → (place_order e ids products user_id b s).0 ≡ ok o
      → (check_reservation user_id b.reservation_id s ≡ ok tt)
        × (check_products b.restaurant_id b.items found ≡ ok tt)
        × (place_order e ids products user_id b s ≡ save_order e found user_id b s)
  unfolding place_order
  place_order-eq-ok s h = ground arith

  -- The order as it is stored.
  abbrev pub stored : Db → List OrderItem → Order
  stored s items = record (new_order user_id b found items) {
    id = e.next_order_id s.orders;
    created_at = e.now;
  }

  pub save_order-eq-ok :
      (s : Db) {o : Order}
      → (save_order e found user_id b s).0 ≡ ok o
      → (items : List OrderItem) × (order_items found b.items ≡ ok items)
        × (o ≡ stored s items)
        × (amounts_fit
              (new_order user_id b found items).total_amount
              (new_order user_id b found items).items
            ≡ true)
        × ((save_order e found user_id b s).1 ≡ record s { orders = o ∷ s.orders })
  unfolding save_order insert_order
  save_order-eq-ok s {o = o} h = go (order_items found b.items) refl
    where
      go :
          (r : Outcome (List OrderItem))
          → order_items found b.items ≡ r
          → (items : List OrderItem) × (order_items found b.items ≡ ok items)
            × (o ≡ stored s items)
            × (amounts_fit
                  (new_order user_id b found items).total_amount
                  (new_order user_id b found items).items
                ≡ true)
            × ((save_order e found user_id b s).1 ≡ record s { orders = o ∷ s.orders })
      go (raised x) m = absurd (ground (arith, m))
      go (ok items) m = (items, m, ground (arith, m), ground (arith, m), ground (arith, m))

  all_checked :
      check_products b.restaurant_id b.items found ≡ ok tt
      → (all (sold_by b.restaurant_id) found ≡ true) × (all available found ≡ true)
  unfolding check_products
  all_checked h = ground arith

  place_order-raised :
      (s : Db) {x : Exception}
      → (place_order e ids products user_id b s).0 ≡ raised x
      → (place_order e ids products user_id b s).1 ≡ s
  unfolding place_order save_order insert_order
  place_order-raised s h = ground arith

-- An order is placed, or it is refused and both databases stay as they were; and whether the telemetry
-- write succeeds changes neither the answer nor the database of the orders.
pub create_order-atomic :
    (e : Engine) (ids : ObjectIds) (logged : Bool) (user_id : ℕ) (b : OrderCreate) (s : Db)
    (m : Mongo)
    → (((o : Order) × ((create_order e ids logged user_id b s m).0 ≡ ok o))
        ⊎ ((x : Exception) × (create_order e ids logged user_id b s m ≡ (raised x, s, m))))
      × ((create_order e ids false user_id b s m).0 ≡ (create_order e ids true user_id b s m).0)
      × ((create_order e ids false user_id b s m).1 ≡ (create_order e ids true user_id b s m).1)
unfolding create_order
create_order-atomic e ids logged user_id b s m =
    (go (place_order e ids m.products user_id b s).0 refl, refl, refl)
  where
    go :
        (r : Outcome Order)
        → (place_order e ids m.products user_id b s).0 ≡ r
        → ((o : Order) × ((create_order e ids logged user_id b s m).0 ≡ ok o))
          ⊎ ((x : Exception) × (create_order e ids logged user_id b s m ≡ (raised x, s, m)))
    go (ok o) h = inl (o, h)
    go (raised x) h =
        let same = place_order-raised e ids m.products user_id b s h in
        inr (x, ground (arith, h, same))

-- When an order is placed, it has one line for each item of the request, in its order, with the name and the
-- rounded price of a product that was found; every product found is of the restaurant and is
-- available; the total is the sum of price times quantity; a reservation that the request names is
-- there and is the user's own; the order is the one new row of the orders; and the telemetry gets an
-- event with the user, the order, its restaurant, the number of its lines and its total, or nothing
-- if that write fails.
pub create_order-receipt :
    (e : Engine) (ids : ObjectIds) (logged : Bool) (user_id : ℕ) (b : OrderCreate) (s : Db)
    (m : Mongo) {o : Order}
    → (create_order e ids logged user_id b s m).0 ≡ ok o
    → let products = found_products ids b.items m.products in
      AreLinesOf products b.items o.items
      × All (IsSold b.restaurant_id) products
      × (o.total_amount ≡ line_total o.items)
      × IsOwn s user_id b.reservation_id
      × ((create_order e ids logged user_id b s m).1 ≡ record s { orders = o ∷ s.orders })
      × ((create_order e ids logged user_id b s m).2 ≡ (
          if logged
          then record m {
            user_telemetry =
                record {
                  user_id = user_id;
                  order_id = o.id;
                  restaurant_id = b.restaurant_id;
                  item_count = length o.items;
                  total_amount = line_total o.items;
                }
                ∷ m.user_telemetry;
          }
          else m))
unfolding create_order new_order
create_order-receipt e ids logged user_id b s m {o = o} h =
    let p = place_order-eq-ok e ids m.products user_id b s h in
    let q = save_order-eq-ok e ids m.products user_id b s (rw p.2 at h) in
    let c = all_checked e ids m.products user_id b p.1 in
    (
      rw q.2 (order_items-AreLinesOf (found_products ids b.items m.products) b.items q.0 q.1),
      all-IsSold b.restaurant_id (found_products ids b.items m.products) c.0 c.1,
      rw q.2 (total_of_lines q.0),
      check_reservation-IsOwn user_id b.reservation_id s p.0,
      rw p.2 q.4,
      ap (λ r. log_event logged r m) h ∙ event q.0 q.2,
    )
  where
    -- The event names the order as it is stored.
    event :
        (items : List OrderItem)
        → o ≡ stored e ids m.products user_id b s items
        → log_event logged (ok o) m ≡ (
            if logged
            then record m {
              user_telemetry =
                  record {
                    user_id = user_id;
                    order_id = o.id;
                    restaurant_id = b.restaurant_id;
                    item_count = length o.items;
                    total_amount = line_total o.items;
                  }
                  ∷ m.user_telemetry;
            }
            else m)
    event items same = rw (same, total_of_lines items) refl
