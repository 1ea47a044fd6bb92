-- ===== src/Models/User.antt =====
-- app/models/user.py. A UUID, like every id, is a number; an email is the key that CITEXT compares.
use restaurant_reservation_s.Prelude.{ℕ, Bool, true, false, Option}
use restaurant_reservation_s.Names.{Text}

pub data UserRole : Type 0 where
  customer staff admin : UserRole

abbrev pub role_eq : UserRole → UserRole → Bool
role_eq customer customer = true
role_eq staff staff = true
role_eq admin admin = true
role_eq _ _ = false

pub record User : Type 0 where
  pub id : ℕ
  pub email : Text
  pub password_hash : Text
  pub full_name : Text
  pub phone : Option Text
  pub role : UserRole
  pub is_active : Bool
  pub created_at : ℕ
