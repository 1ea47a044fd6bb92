-- ===== src/Orders/Newest.antt =====
-- What GET /orders lists (app/services/orders.py, select_my_orders).
use restaurant_reservation_s.Prelude.{ℕ, ◌≤◌, ◌≡◌, true, false, List, [], ◌++◌, length, ◌⊎◌, arith}
use mathlib.Core.List.{Perm}
use restaurant_reservation_s.Database.{Db}
use restaurant_reservation_s.Paging.Ordered.{IsOrdered, limited}
use restaurant_reservation_s.Orders.Listing.{
  OrderSummary, newer_order, own_orders, select_my_orders,
}

newer_order_total : (a b : OrderSummary) → newer_order a b ≡ false → newer_order b a ≡ true
newer_order_total a b h = ground arith

newer_order_trans :
    (a b c : OrderSummary)
    → newer_order a b ≡ true
    → newer_order b c ≡ true
    → newer_order a c ≡ true
newer_order_trans a b c h k = ground arith

-- The list of a user's orders has at most `limit` rows, and together with the orders that it leaves
-- out it is a rearrangement of all the user's orders, the newest first; it leaves none out unless it
-- has `limit` rows.
pub select_my_orders-newest :
    (user_id limit : ℕ) (s : Db)
    → let rows = select_my_orders user_id limit s in
      (rest : List OrderSummary) × Perm (rows ++ rest) (own_orders user_id s)
      × IsOrdered newer_order (rows ++ rest)
      × (length rows ≤ limit)
      × ((rest ≡ []) ⊎ (length rows ≡ limit))
unfolding select_my_orders
select_my_orders-newest user_id limit s =
    limited newer_order newer_order_total newer_order_trans limit (own_orders user_id s)
