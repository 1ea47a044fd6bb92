-- ===== src/Models/Reservation.antt =====
-- app/models/reservation.py, and the CHECK and EXCLUDE constraints of the table (the latter is
-- declared in alembic/versions/0001_initial_schema.py). A timestamp with time zone is the number of
-- microseconds since a fixed instant.
use restaurant_reservation_s.Prelude.{
  ℕ, Bool, true, false, not, ◌&&◌, Option, none, some, ltb, leb, ◌==◌,
}
use restaurant_reservation_s.Names.{Text}

pub data ReservationStatus : Type 0 where
  pending confirmed cancelled : ReservationStatus

abbrev pub is_cancelled : ReservationStatus → Bool
is_cancelled cancelled = true
is_cancelled _ = false

pub record Reservation : Type 0 where
  pub id : ℕ
  pub user_id : ℕ
  pub restaurant_id : ℕ
  pub restaurant_table_id : ℕ
  pub guest_name : Option Text
  pub first_name : Option Text
  pub last_name : Option Text
  pub party_size : ℕ
  pub starts_at : ℕ
  pub ends_at : ℕ
  pub status : ReservationStatus
  pub created_at : ℕ
  -- xmin
  pub version : ℕ

-- The name columns that a statement sets; None stands for a column that it leaves out.
pub record NameWrite : Type 0 where
  pub guest_name : Option Text
  pub first_name : Option Text
  pub last_name : Option Text

-- The attributes that a request has set on a loaded row, which its UPDATE writes.
pub record Changes : Type 0 where
  pub names : NameWrite
  pub party_size : Option ℕ
  pub status : Option ReservationStatus

abbrev pub or_old {ℓ} : {A : Type ℓ} → Option A → A → A
or_old none old = old
or_old (some new) old = new

abbrev pub written : Option Text → Option Text → Option Text
written none old = old
written (some new) old = some new

abbrev pub apply : Changes → Reservation → Reservation
apply c r = record r {
  guest_name = written c.names.guest_name r.guest_name;
  first_name = written c.names.first_name r.first_name;
  last_name = written c.names.last_name r.last_name;
  party_size = or_old c.party_size r.party_size;
  status = or_old c.status r.status;
}

-- CHECK (party_size > 0 AND party_size <= 20)
unfoldable pub party_check : Reservation → Bool
party_check r = ltb 0 r.party_size && leb r.party_size 20

-- CHECK (ends_at > starts_at)
unfoldable pub time_order_check : Reservation → Bool
time_order_check r = ltb r.starts_at r.ends_at

-- tstzrange(a, b, '[)') && tstzrange(c, d, '[)'): an empty range overlaps nothing.
abbrev pub ranges_overlap : ℕ → ℕ → ℕ → ℕ → Bool
ranges_overlap a b c d = ltb a b && ltb c d && ltb a d && ltb c b

-- The rows that no_double_booking keeps apart: the same table, overlapping times, and both inside
-- WHERE (status <> 'cancelled').
unfoldable pub conflicts : Reservation → Reservation → Bool
conflicts r q =
    not (is_cancelled r.status)
    && not (is_cancelled q.status)
    && r.restaurant_table_id == q.restaurant_table_id
    && ranges_overlap r.starts_at r.ends_at q.starts_at q.ends_at
