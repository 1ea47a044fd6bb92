-- ===== src/Orders/References.antt =====
-- What an order that is placed refers to (app/services/orders.py, create_order).
use restaurant_reservation_s.Prelude.{ℕ, ◌≡◌, refl, true, arith, List, Bool}
use restaurant_reservation_s.Http.{ok}
use restaurant_reservation_s.Models.Order.{Order}
use restaurant_reservation_s.Database.{Db, Engine, find_restaurant}
use restaurant_reservation_s.Reservations.Store.{is_some}
use restaurant_reservation_s.Orders.Catalogue.{Product, Mongo, OrderCreate, ObjectIds}
use restaurant_reservation_s.Orders.Placing.{place_order, new_order, create_order}
use restaurant_reservation_s.Orders.Receipt.{place_order-eq-ok, save_order-eq-ok}

place_order-restaurant :
    (e : Engine) (ids : ObjectIds) (products : List Product) (user_id : ℕ) (b : OrderCreate)
    (s : Db) {o : Order}
    → (place_order e ids products user_id b s).0 ≡ ok o
    → is_some (find_restaurant b.restaurant_id s.restaurants) ≡ true
unfolding place_order
place_order-restaurant e ids products user_id b s {o = o} h = ground arith

-- An order that is placed is the caller's, names the restaurant and the reservation of the request, and
-- the restaurant is there.
pub create_order-refs :
    (e : Engine) (ids : ObjectIds) (logged : Bool) (user_id : ℕ) (b : OrderCreate) (s : Db)
    (m : Mongo) {o : Order}
    → (create_order e ids logged user_id b s m).0 ≡ ok o
    → (o.user_id ≡ user_id)
      × (o.restaurant_id ≡ b.restaurant_id)
      × (o.reservation_id ≡ b.reservation_id)
      × (is_some (find_restaurant b.restaurant_id s.restaurants) ≡ true)
unfolding create_order new_order
create_order-refs e ids logged user_id b s m {o = o} h =
    let p = place_order-eq-ok e ids m.products user_id b s h in
    let q = save_order-eq-ok e ids m.products user_id b s (rw p.2 at h) in
    (rw q.2 refl, rw q.2 refl, rw q.2 refl, place_order-restaurant e ids m.products user_id b s h)
