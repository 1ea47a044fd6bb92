-- ===== src/Database.antt =====
-- The database: the tables of app/models, and what PostgreSQL chooses by itself.
use restaurant_reservation_s.Prelude.{
  ℕ, ◌<◌, ◌≡◌, ◌≢◌, Bool, false, ◌==◌, List, [], ◌∷◌, Option, none, some, if◌then◌else◌, All, IsIn,
}
use restaurant_reservation_s.Http.{Constraint}
use restaurant_reservation_s.Models.User.{User}
use restaurant_reservation_s.Models.Restaurant.{Restaurant, RestaurantTable}
use restaurant_reservation_s.Models.Reservation.{Reservation, Changes, apply}
use restaurant_reservation_s.Models.Order.{Order}

-- The name columns of the reservations table, which the revisions 0001 to 0004 change.
pub record Columns : Type 0 where
  pub guest_name_present : Bool
  pub guest_name_nullable : Bool
  pub new_columns_present : Bool
  pub first_name_nullable : Bool
  pub last_name_nullable : Bool

pub record Db : Type 0 where
  pub users : List User
  pub restaurants : List Restaurant
  pub tables : List RestaurantTable
  pub reservations : List Reservation
  pub orders : List Order
  pub columns : Columns

-- SELECT ... WHERE id = :id, for each table.
unfoldable pub find_user : ℕ → List User → Option User
find_user i [] = none
find_user i (u ∷ us) = if u.id == i then some u else find_user i us

unfoldable pub find_restaurant : ℕ → List Restaurant → Option Restaurant
find_restaurant i [] = none
find_restaurant i (r ∷ rs) = if r.id == i then some r else find_restaurant i rs

unfoldable pub find_table : ℕ → List RestaurantTable → Option RestaurantTable
find_table i [] = none
find_table i (t ∷ ts) = if t.id == i then some t else find_table i ts

unfoldable pub find_reservation : ℕ → List Reservation → Option Reservation
find_reservation i [] = none
find_reservation i (r ∷ rs) = if r.id == i then some r else find_reservation i rs

unfoldable pub find_order : ℕ → List Order → Option Order
find_order i [] = none
find_order i (o ∷ os) = if o.id == i then some o else find_order i os

-- What PostgreSQL and SQLAlchemy choose by themselves. A sequence never gives an id that a row has; the id of a
-- transaction, which becomes xmin of the rows that it writes, is above those of the transactions
-- before it (wrap-around after 2 ^ 32 transactions is left out).
pub record Engine : Type 0 where
  pub next_reservation_id : List Reservation → ℕ
  pub next_order_id : List Order → ℕ
  pub next_user_id : List User → ℕ
  pub next_xid : List Reservation → ℕ
  pub now : ℕ
  -- Of several constraints that a statement violates, the one that the error names.
  pub report : Constraint → List Constraint → Constraint
  -- Whether the session issues an UPDATE for the attributes that were set: it may leave the statement
  -- out when they have the values that were loaded.
  pub emits : Reservation → Changes → Bool
  pub fresh_reservation_id : (rs : List Reservation) → All (λ r. r.id < next_reservation_id rs) rs
  pub fresh_order_id : (os : List Order) → All (λ o. o.id < next_order_id os) os
  pub fresh_user_id : (us : List User) → All (λ u. u.id ≢ next_user_id us) us
  pub not_emitted : (r : Reservation) (c : Changes) → emits r c ≡ false → apply c r ≡ r
  pub report_IsIn : (c : Constraint) (cs : List Constraint) → IsIn (report c cs) (c ∷ cs)
  pub fresh_xid : (rs : List Reservation) → All (λ r. r.version < next_xid rs) rs
