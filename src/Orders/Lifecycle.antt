-- ===== src/Orders/Lifecycle.antt =====
-- What the orders of the database can go through (`advance_status` of app/services/orders.py).
use restaurant_reservation_s.Prelude.{
  ℕ, ◌≡◌, ◌≢◌, ==→eq, refl, true, List, [], ◌∷◌, Option, none, some, ◌==◌, if◌then◌else◌, arith,
  Bool-cases, Option-cases, ==-refl, inl, inr, ◌⊎◌,
}
use restaurant_reservation_s.Http.{ok, raised, http_exception, order_not_found, illegal_transition}
use restaurant_reservation_s.Models.Order.{
  Order, OrderStatus, placed, preparing, ready, completed, cancelled,
}
use restaurant_reservation_s.Database.{Db, find_order}
use restaurant_reservation_s.Orders.Status.{may_move, set_status, advance_status}

-- The documented life of an order: placed, preparing, ready, completed, with cancelled reachable from
-- placed and preparing.
pub data Lifecycle : OrderStatus → OrderStatus → Type 0 where
  start_cooking : Lifecycle placed preparing
  finish_cooking : Lifecycle preparing ready
  serve : Lifecycle ready completed
  cancel_placed : Lifecycle placed cancelled
  cancel_preparing : Lifecycle preparing cancelled

may_move-Lifecycle : (a b : OrderStatus) → may_move a b ≡ true → Lifecycle a b
unfolding may_move
may_move-Lifecycle placed placed h = cc
may_move-Lifecycle placed preparing h = start_cooking
may_move-Lifecycle placed ready h = cc
may_move-Lifecycle placed completed h = cc
may_move-Lifecycle placed cancelled h = cancel_placed
may_move-Lifecycle preparing placed h = cc
may_move-Lifecycle preparing preparing h = cc
may_move-Lifecycle preparing ready h = finish_cooking
may_move-Lifecycle preparing completed h = cc
may_move-Lifecycle preparing cancelled h = cancel_preparing
may_move-Lifecycle ready placed h = cc
may_move-Lifecycle ready preparing h = cc
may_move-Lifecycle ready ready h = cc
may_move-Lifecycle ready completed h = serve
may_move-Lifecycle ready cancelled h = cc
may_move-Lifecycle completed b h = cc
may_move-Lifecycle cancelled b h = cc

Lifecycle-may_move : (a b : OrderStatus) → Lifecycle a b → may_move a b ≡ true
unfolding may_move
Lifecycle-may_move a b start_cooking = refl
Lifecycle-may_move a b finish_cooking = refl
Lifecycle-may_move a b serve = refl
Lifecycle-may_move a b cancel_placed = refl
Lifecycle-may_move a b cancel_preparing = refl

find-set_status :
    (i j : ℕ) (new : OrderStatus) (os : List Order)
    → find_order j (set_status i new os) ≡ elim (find_order j os) as (λ _. Option Order) [
      | none ↦ none
      | some o ↦ some (if i == j then record o { status = new } else o)
    ]
unfolding find_order set_status
find-set_status i j new [] = refl
find-set_status i j new (o ∷ os) = ground (arith, find-set_status i j new os)

-- The orders of this id have got the new status and nothing else, and all others are as they were.
abbrev pub OnlyMoved : ℕ → OrderStatus → List Order → List Order → Type 0
OnlyMoved i new [] [] = Unit
OnlyMoved i new (o ∷ os) (q ∷ qs) =
    (((o.id ≡ i) × (q ≡ record o { status = new })) ⊎ ((o.id ≢ i) × (q ≡ o)))
    × OnlyMoved i new os qs
OnlyMoved i new _ _ = ⊥

set_status-OnlyMoved :
    (i : ℕ) (new : OrderStatus) (os : List Order) → OnlyMoved i new os (set_status i new os)
unfolding set_status
set_status-OnlyMoved i new [] = tt
set_status-OnlyMoved i new (o ∷ os) =
    let rest = set_status-OnlyMoved i new os in
    elim (Bool-cases (o.id == i)) [
      | inl hit ↦ rw hit (inl (==→eq o.id i hit, refl), rest)
      | inr miss ↦ rw miss (inr (ground (arith, miss), refl), rest)
    ]

-- A status change succeeds exactly along the lifecycle: then the order of that id gets the new status,
-- all other orders and the rest of the database stay as they are. Otherwise it is answered 409 and nothing changes; an
-- order that does not exist is 404.
pub advance_status-Lifecycle :
    (i : ℕ) (new : OrderStatus) (s : Db)
    → ((find_order i s.orders ≡ none)
        × (advance_status i new s ≡ (raised (http_exception 404 order_not_found), s)))
      ⊎ ((o : Order) × (find_order i s.orders ≡ some o)
          × ((Lifecycle o.status new
                × ((after : List Order) × (advance_status i new s
                      ≡ (ok (record o { status = new }), record s { orders = after }))
                    × OnlyMoved i new s.orders after))
              ⊎ ((Lifecycle o.status new → ⊥)
                  × (advance_status i new s
                      ≡ (raised (http_exception 409 illegal_transition), s)))))
unfolding advance_status
advance_status-Lifecycle i new s = elim (Option-cases (find_order i s.orders)) [
  | inl missing ↦ inl (missing, rw (missing, advance_status))
  | inr (o, found) ↦ inr (
    o,
    found,
    elim (Bool-cases (may_move o.status new)) [
      | inl legal ↦ inl (
        may_move-Lifecycle o.status new legal,
        (
          set_status i new s.orders,
          ground (arith, find-set_status i i new s.orders, ==-refl i),
          set_status-OnlyMoved i new s.orders,
        ),
      )
      | inr illegal ↦ inr ((λ l. cc (Lifecycle-may_move o.status new l, illegal)), ground arith)
    ],
  )
]
