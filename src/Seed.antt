-- ===== src/Seed.antt =====
-- The seeded accounts' roles and reservations (scripts/seed.py, seed_postgres). What `random` and Faker
-- draw is an input: one Draw for each attempt of the loop.
pub mod Plan
pub mod Postgres
pub mod Documents
pub mod Script
use restaurant_reservation_s.Prelude.{
  ℕ, zero, suc, ◌+◌, ◌-◌, ◌*◌, Bool, true, false, not, ◌&&◌, ◌||◌, List, [], ◌∷◌, Option, none,
  some, ◌==◌, ltb, leb, any, all, length, if◌then◌else◌,
}
use restaurant_reservation_s.Names.{Text, split_guest_name}
use restaurant_reservation_s.Models.User.{UserRole, customer, staff, admin}
use restaurant_reservation_s.Models.Reservation.{
  Reservation, ReservationStatus, NameWrite, confirmed, cancelled,
}
use restaurant_reservation_s.Database.{Db, Columns}
use restaurant_reservation_s.Http.{Constraint}
use restaurant_reservation_s.Reservations.Store.{row_violations}
use restaurant_reservation_s.Traffic.{minute, day}

-- The first 5 accounts are admins, the next 40 staff.
unfoldable pub seed_role : ℕ → UserRole
seed_role i = if ltb i 5 then admin else if ltb i 45 then staff else customer

unfoldable pub guest_columns : Columns → Text → NameWrite
guest_columns cs name =
    if cs.guest_name_present
    then record { guest_name = some name; first_name = none; last_name = none }
    else record {
      guest_name = none;
      first_name = some (split_guest_name name).0;
      last_name = some (split_guest_name name).1;
    }

-- What one attempt draws. `day` counts from 14 days before today.
pub record Draw : Type 0 where
  pub restaurant_id : ℕ
  pub table_id : ℕ
  pub day : ℕ
  pub slot : ℕ
  pub name : Text
  pub user_id : ℕ
  pub party_size : ℕ
  pub is_cancelled : Bool

-- The minute of the day at which a slot starts: 17:00, 18:30, 20:00, 21:30, 12:00 and 13:30.
unfoldable pub slot_minute : ℕ → ℕ
slot_minute slot =
    if slot == 0
    then 17 * 60
    else if slot == 1
    then 18 * 60 + 30
    else if slot == 2
    then 20 * 60
    else if slot == 3
    then 21 * 60 + 30
    else if slot == 4
    then 12 * 60
    else 13 * 60 + 30

unfoldable pub draw_starts : ℕ → Draw → ℕ
draw_starts first d = first + d.day * day + slot_minute d.slot * minute

-- The row of a draw, with the id and the version that the database gives it.
unfoldable pub seeded_row : Columns → ℕ → ℕ → Draw → Reservation
seeded_row cs first i d = record {
  id = i;
  user_id = d.user_id;
  restaurant_id = d.restaurant_id;
  restaurant_table_id = d.table_id;
  guest_name = (guest_columns cs d.name).guest_name;
  first_name = (guest_columns cs d.name).first_name;
  last_name = (guest_columns cs d.name).last_name;
  party_size = d.party_size;
  starts_at = draw_starts first d;
  ends_at = draw_starts first d + 90 * minute;
  status = if d.is_cancelled then cancelled else confirmed;
  created_at = 0;
  version = 0;
}

-- `key in taken`: the set holds the keys of the draws that were accepted.
unfoldable pub is_taken : Draw → List Draw → Bool
is_taken d ds = any (λ q. q.table_id == d.table_id && q.day == d.day && q.slot == d.slot) ds

-- The loop: the draws that are accepted, the last one first. `n` is the number of reservations that are
-- still wanted; the list of draws has as many entries as there are attempts.
unfoldable pub accepted : ℕ → List Draw → List Draw → List Draw
unfolding is_taken
accepted zero draws taken = taken
accepted (suc n) [] taken = taken
accepted (suc n) (d ∷ draws) taken = elim (is_taken d taken) [
  | true ↦ accepted (suc n) draws taken
  | false ↦ accepted n draws (d ∷ taken)
]

-- session.add_all(reservations) on an empty table: ids count from 1.
unfoldable pub insert_all : Columns → ℕ → List Draw → List Reservation
unfolding seeded_row
insert_all cs first [] = []
insert_all cs first (d ∷ ds) = seeded_row cs first (suc (length ds)) d ∷ insert_all cs first ds

abbrev pub is_accepted : List Constraint → Bool
is_accepted [] = true
is_accepted (_ ∷ _) = false

-- The reservations of the seed, from an empty table (`reset_postgres`). session.flush() raises on a row
-- that violates a CHECK or a NOT NULL, for instance where first_name is NOT NULL beside guest_name; no
-- value stands for that. The keys of a row are those of rows that the seed has added before, and no two
-- rows overlap (see Plan), so that no other constraint can fail.
unfoldable pub seed_reservations : ℕ → ℕ → List Draw → Db → Option Db
unfolding accepted insert_all
seed_reservations first n draws s =
    let rows = insert_all s.columns first (accepted n draws []) in
    if all (λ r. is_accepted (row_violations s.columns r)) rows
    then some (record s { reservations = rows })
    else none
