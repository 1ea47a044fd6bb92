-- ===== src/Orders/Routes.antt =====
-- app/routers/orders.py: reading one order, and the status change for staff.
use restaurant_reservation_s.Prelude.{ℕ, not, ◌||◌, [], ◌∷◌, ◌==◌}
use restaurant_reservation_s.Http.{order_not_found, not_your_order}
use restaurant_reservation_s.Models.User.{User, customer, staff, admin, role_eq}
use restaurant_reservation_s.Models.Order.{Order, OrderStatus}
use restaurant_reservation_s.Database.{find_order}
use restaurant_reservation_s.Action.{Action, ◌>>=◌, ◌>>◌, require, find_or_raise, pure}
use restaurant_reservation_s.Security.{guarded}
use restaurant_reservation_s.Orders.Status.{advance_status}

-- GET /api/v1/orders/{id}
unfoldable pub get_order : ℕ → User → Action Order
get_order i current = do
  order ← find_or_raise (λ s. find_order i s.orders) 404 order_not_found
  require (not (role_eq current.role customer) || order.user_id == current.id) 403 not_your_order
  pure order

-- PATCH /api/v1/orders/{id}/status
unfoldable pub update_status : ℕ → OrderStatus → User → Action Order
update_status i new current = guarded (staff ∷ admin ∷ []) current (advance_status i new)
