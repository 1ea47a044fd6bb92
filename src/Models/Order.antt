-- ===== src/Models/Order.antt =====
-- app/models/order.py. An amount of money, NUMERIC(10, 2), is its number of hundredths. `Attributes`
-- of an item are an opaque number, since the code only passes them on.
use restaurant_reservation_s.Prelude.{ℕ, Bool, true, false, Option, List}
use restaurant_reservation_s.Names.{Text}

pub data OrderStatus : Type 0 where
  placed preparing ready completed cancelled : OrderStatus

abbrev pub order_status_eq : OrderStatus → OrderStatus → Bool
order_status_eq placed placed = true
order_status_eq preparing preparing = true
order_status_eq ready ready = true
order_status_eq completed completed = true
order_status_eq cancelled cancelled = true
order_status_eq _ _ = false

pub record OrderItem : Type 0 where
  pub product_id : Text
  pub product_name : Text
  pub unit_price : ℕ
  pub quantity : ℕ
  pub selected_attributes : Option ℕ

pub record Order : Type 0 where
  pub id : ℕ
  pub user_id : ℕ
  pub restaurant_id : ℕ
  pub reservation_id : Option ℕ
  pub status : OrderStatus
  pub total_amount : ℕ
  pub currency : Text
  pub items : List OrderItem
  pub created_at : ℕ
