-- ===== src/Api/Consistency.antt =====
-- The consistency of the database under every request of the API.
use restaurant_reservation_s.Prelude.{
  ℕ, ◌≡◌, refl, Bool, List, [], ◌∷◌, Option, none, some, All, Bool-cases, inl, inr, ◌==◌,
}
use restaurant_reservation_s.Http.{ok}
use restaurant_reservation_s.Models.User.{User, UserRole, staff, admin, customer}
use restaurant_reservation_s.Models.Order.{Order, OrderStatus}
use restaurant_reservation_s.Database.{Db, Engine, find_user, find_order}
use restaurant_reservation_s.Security.{guarded, require_role}
use restaurant_reservation_s.Orders.Catalogue.{Mongo, OrderCreate, ObjectIds}
use restaurant_reservation_s.Orders.Placing.{create_order}
use restaurant_reservation_s.Orders.Status.{advance_status, set_status, may_move}
use restaurant_reservation_s.Orders.Routes.{update_status}
use restaurant_reservation_s.Orders.Receipt.{create_order-receipt, create_order-atomic}
use restaurant_reservation_s.Orders.References.{create_order-refs}
use restaurant_reservation_s.Api.{
  Request, signs_up, edits_profile, opens, books, edits, cancels, orders, moves, Requests, here,
  next,
}
use restaurant_reservation_s.Api.Integrity.{OrderRefs, IsConsistent, Grows-IsConsistent}
use restaurant_reservation_s.Api.Accounts.{
  signs_up-IsConsistent, edits_profile-IsConsistent, opens-IsConsistent,
}
use restaurant_reservation_s.Api.Bookings.{
  IsBooked, books-IsBooked, edits-IsBooked, cancels-IsBooked,
}

IsBooked-IsConsistent : (s t : Db) → IsConsistent s → IsBooked s t → IsConsistent t
IsBooked-IsConsistent s t c b =
    Grows-IsConsistent s t b.grows (rw b.same_restaurants c.restaurants) b.refs
      (rw b.same_orders c.orders)

-- The orders change, and nothing refers to an order.
orders-IsConsistent :
    (s : Db) (os : List Order)
    → IsConsistent s
    → All (OrderRefs s) os
    → IsConsistent (record s { orders = os })
orders-IsConsistent s os c h =
    Grows-IsConsistent s (record s { orders = os })
      (record { users = λ i k. k; restaurants = λ i k. k; tables = refl; bookings = λ u i k. k })
      c.restaurants c.reservations h

placed-IsConsistent :
    (e : Engine) (ids : ObjectIds) (logged : Bool) (current : User) (b : OrderCreate) (m : Mongo)
    (s : Db) (o : Order)
    → IsConsistent s
    → find_user current.id s.users ≡ some current
    → (create_order e ids logged current.id b s m).0 ≡ ok o
    → IsConsistent (create_order e ids logged current.id b s m).1
placed-IsConsistent e ids logged current b m s o c found h =
    let receipt = create_order-receipt e ids logged current.id b s m h in
    let refs = create_order-refs e ids logged current.id b s m h in
    rw receipt.4 (
      orders-IsConsistent s (o ∷ s.orders) c (
        record {
          user = rw (refs.0, found) refl;
          restaurant = rw refs.1 refs.3;
          reservation = rw (refs.0, refs.2) receipt.3;
          total = receipt.2;
        },
        c.orders,
      ))

places-IsConsistent :
    (e : Engine) (ids : ObjectIds) (logged : Bool) (current : User) (b : OrderCreate) (m : Mongo)
    (s : Db)
    → IsConsistent s
    → find_user current.id s.users ≡ some current
    → IsConsistent (create_order e ids logged current.id b s m).1
places-IsConsistent e ids logged current b m s c found =
    elim (create_order-atomic e ids logged current.id b s m).0 [
      | inl (o, placed) ↦ placed-IsConsistent e ids logged current b m s o c found placed
      | inr (x, refused) ↦ rw refused c
    ]

-- A new status refers to nothing.
set_status-refs :
    (s : Db) (i : ℕ) (new : OrderStatus) (os : List Order)
    → All (OrderRefs s) os
    → All (OrderRefs s) (set_status i new os)
unfolding set_status
set_status-refs s i new [] h = tt
set_status-refs s i new (o ∷ os) h = elim (Bool-cases (o.id == i)) [
  | inl hit ↦ rw hit (
    record {
      user = h.0.user;
      restaurant = h.0.restaurant;
      reservation = h.0.reservation;
      total = h.0.total;
    },
    set_status-refs s i new os h.1,
  )
  | inr miss ↦ rw miss (h.0, set_status-refs s i new os h.1)
]

advances-IsConsistent :
    (i : ℕ) (new : OrderStatus) (s : Db) → IsConsistent s → IsConsistent (advance_status i new s).1
unfolding advance_status
advances-IsConsistent i new s c = go (find_order i s.orders) refl
  where
    moved : IsConsistent (record s { orders = set_status i new s.orders })
    moved =
        orders-IsConsistent s (set_status i new s.orders) c
          (set_status-refs s i new s.orders c.orders)

    go : (o : Option Order) → find_order i s.orders ≡ o → IsConsistent (advance_status i new s).1
    go none h = rw (h, advance_status) c
    go (some o) h = elim (Bool-cases (may_move o.status new)) [
      | inl legal ↦ rw (h, advance_status, legal) moved
      | inr illegal ↦ rw (h, advance_status, illegal) c
    ]

moves-IsConsistent :
    (i : ℕ) (new : OrderStatus) (current : User) (s : Db)
    → IsConsistent s
    → IsConsistent (update_status i new current s).1
unfolding update_status guarded
moves-IsConsistent i new current s c = go current.role refl
  where
    go : (role : UserRole) → current.role ≡ role → IsConsistent (update_status i new current s).1
    go customer h = unfold require_role in rw h c
    go staff h = unfold require_role in rw h (advances-IsConsistent i new s c)
    go admin h = unfold require_role in rw h (advances-IsConsistent i new s c)

Request-IsConsistent : (s t : Db) → IsConsistent s → Request s t → IsConsistent t
Request-IsConsistent s t c (signs_up same_email e hash b) =
    signs_up-IsConsistent same_email e hash b s c
Request-IsConsistent s t c (edits_profile same_email b current) =
    edits_profile-IsConsistent same_email b current s c
Request-IsConsistent s t c (opens e new_id b current found valid) =
    opens-IsConsistent e new_id b current s c found valid
Request-IsConsistent s t c (books e p current b) =
    IsBooked-IsConsistent s t c (books-IsBooked s c.reservations e p current b)
Request-IsConsistent s t c (edits e p loaded b) =
    IsBooked-IsConsistent s t c (edits-IsBooked s c.reservations e p loaded b)
Request-IsConsistent s t c (cancels e p loaded) =
    IsBooked-IsConsistent s t c (cancels-IsBooked s c.reservations e p loaded)
Request-IsConsistent s t c (orders e ids logged current b m found) =
    places-IsConsistent e ids logged current b m s c found
Request-IsConsistent s t c (moves i new current) = moves-IsConsistent i new current s c

-- The whole API keeps the database consistent, whatever requests come in whatever order: every
-- restaurant has its owner and a price range of 1 to 4; every reservation has its user, its restaurant
-- and a table of that restaurant; every order has its user, its restaurant, a total that is the sum of
-- its lines, and, if it names a reservation, one of the same user. A restaurant is opened, and an order
-- is placed, by a user who is in the table, and the body of the former is valid.
pub Requests-IsConsistent : (s t : Db) → IsConsistent s → Requests s t → IsConsistent t
Requests-IsConsistent s t c here = c
Requests-IsConsistent s t c (next {t = u} r q) =
    Request-IsConsistent u t (Requests-IsConsistent s u c r) q
