-- ===== src/Orders/Listing.antt =====
-- The list of the caller's orders (app/services/orders.py, select_my_orders, and
-- app/routers/orders.py, list_my_orders).
use restaurant_reservation_s.Prelude.{
  ℕ, Bool, List, [], ◌∷◌, Option, none, some, ◌==◌, ◌||◌, ◌&&◌, ltb, leb, select, take, length,
}
use restaurant_reservation_s.Http.{ok}
use restaurant_reservation_s.Names.{Text}
use restaurant_reservation_s.Models.User.{User}
use restaurant_reservation_s.Models.Restaurant.{Restaurant}
use restaurant_reservation_s.Models.Order.{Order, OrderStatus}
use restaurant_reservation_s.Database.{Db, find_restaurant}
use restaurant_reservation_s.Action.{Action, reading}
use restaurant_reservation_s.Paging.{order_by}

pub record OrderSummary : Type 0 where
  pub id : ℕ
  pub restaurant_id : ℕ
  pub restaurant_name : Text
  pub reservation_id : Option ℕ
  pub status : OrderStatus
  pub total_amount : ℕ
  pub currency : Text
  pub created_at : ℕ
  pub item_count : ℕ

abbrev pub cons_summary : Order → Option Restaurant → List OrderSummary → List OrderSummary
cons_summary o none rest = rest
cons_summary o (some t) rest =
    record {
      id = o.id;
      restaurant_id = o.restaurant_id;
      restaurant_name = t.name;
      reservation_id = o.reservation_id;
      status = o.status;
      total_amount = o.total_amount;
      currency = o.currency;
      created_at = o.created_at;
      item_count = length o.items;
    }
    ∷ rest

-- JOIN restaurants and LEFT JOIN order_items, grouped by order.
unfoldable pub summaries : List Restaurant → List Order → List OrderSummary
summaries ts [] = []
summaries ts (o ∷ os) = cons_summary o (find_restaurant o.restaurant_id ts) (summaries ts os)

-- ORDER BY created_at DESC, id DESC
abbrev pub newer_order : OrderSummary → OrderSummary → Bool
newer_order a b = ltb b.created_at a.created_at || (a.created_at == b.created_at && leb b.id a.id)

-- The orders of the user, before LIMIT.
abbrev pub own_orders : ℕ → Db → List OrderSummary
own_orders user_id s = summaries s.restaurants (select (λ o. o.user_id == user_id) s.orders)

unfoldable pub select_my_orders : ℕ → ℕ → Db → List OrderSummary
select_my_orders user_id limit s = take limit (order_by newer_order (own_orders user_id s))

-- GET /api/v1/orders
unfoldable pub list_my_orders : User → ℕ → Action (List OrderSummary)
list_my_orders current limit = reading (λ s. ok (select_my_orders current.id limit s))
