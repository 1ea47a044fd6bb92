-- ===== src/Models/Restaurant.antt =====
-- app/models/restaurant.py. A rating is kept in tenths, as NUMERIC(2, 1).
use restaurant_reservation_s.Prelude.{ℕ, Bool, Option}
use restaurant_reservation_s.Names.{Text}

pub record Restaurant : Type 0 where
  pub id : ℕ
  pub owner_id : ℕ
  pub name : Text
  pub cuisine : Text
  pub city : Text
  pub address : Text
  pub price_range : ℕ
  pub avg_rating : Option ℕ
  pub created_at : ℕ

pub record RestaurantTable : Type 0 where
  pub id : ℕ
  pub restaurant_id : ℕ
  pub table_number : Text
  pub capacity : ℕ
  pub is_active : Bool
