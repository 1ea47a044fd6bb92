-- ===== src/Orders/Status.antt =====
-- The state machine of an order (app/services/orders.py, TRANSITIONS and advance_status). The row is
-- read under FOR UPDATE and stays locked until the commit, so a call is one step.
use restaurant_reservation_s.Prelude.{
  ℕ, Bool, List, [], ◌∷◌, Option, none, some, ◌==◌, any, if◌then◌else◌,
}
use restaurant_reservation_s.Http.{
  Outcome, ok, raised, http_exception, order_not_found, illegal_transition, attribute_error,
}
use restaurant_reservation_s.Models.Order.{
  Order, OrderStatus, placed, preparing, ready, completed, cancelled, order_status_eq,
}
use restaurant_reservation_s.Database.{Db, find_order}
use restaurant_reservation_s.Action.{Action}

unfoldable pub transitions : OrderStatus → List OrderStatus
transitions placed = preparing ∷ cancelled ∷ []
transitions preparing = ready ∷ cancelled ∷ []
transitions ready = completed ∷ []
transitions completed = []
transitions cancelled = []

-- `new in TRANSITIONS[current]`
unfoldable pub may_move : OrderStatus → OrderStatus → Bool
unfolding transitions
may_move current new = any (order_status_eq new) (transitions current)

-- UPDATE orders SET status = :new WHERE id = :id
unfoldable pub set_status : ℕ → OrderStatus → List Order → List Order
set_status i new [] = []
set_status i new (o ∷ os) =
    if o.id == i then record o { status = new } ∷ set_status i new os else o ∷ set_status i new os

abbrev reloaded : Option Order → Outcome Order
reloaded none = raised attribute_error
reloaded (some o) = ok o

abbrev moved : ℕ → OrderStatus → Db → Db
moved i new s = record s { orders = set_status i new s.orders }

unfoldable pub advance_status : ℕ → OrderStatus → Action Order
advance_status i new s = elim (find_order i s.orders) [
  | none ↦ (raised (http_exception 404 order_not_found), s)
  | some o ↦
      if may_move o.status new
      then (reloaded (find_order i (moved i new s).orders), moved i new s)
      else (raised (http_exception 409 illegal_transition), s)
]
