-- ===== src/Backfill.antt =====
-- scripts/backfill_names.py: copies guest_name into first_name and last_name in batches.
-- `locked n` says which rows a request holds while batch n selects (SKIP LOCKED); `xid n` is the
-- version that the transaction of batch n gives to the rows that it writes.
pub mod Passes
pub mod Unlocked
pub mod Opening
use restaurant_reservation_s.Prelude.{
  ℕ, zero, suc, ◌+◌, ◌≡◌, Bool, true, false, not, ◌&&◌, ◌||◌, List, [], ◌∷◌, Option, none, some,
  ◌==◌, ltb, leb, any, map, select, count_where, take, if◌then◌else◌,
}
use restaurant_reservation_s.Names.{Text, split_guest_name}
use restaurant_reservation_s.Models.Reservation.{Reservation}
use restaurant_reservation_s.Database.{Db}
use restaurant_reservation_s.Migration.Schema.{is_null, name_mismatch}
use restaurant_reservation_s.Paging.{order_by}

-- WHERE first_name IS NULL
abbrev pub is_awaiting : Reservation → Bool
is_awaiting r = is_null r.first_name

unfoldable pub awaiting : List Reservation → ℕ
awaiting rows = count_where is_awaiting rows

-- `guest_name or ""`
abbrev pub or_empty : Option Text → Text
or_empty none = []
or_empty (some s) = s

-- SET first_name = :first, last_name = :last
unfoldable pub filled_row : ℕ → Reservation → Reservation
filled_row x r = record r {
  first_name = some (split_guest_name (or_empty r.guest_name)).0;
  last_name = some (split_guest_name (or_empty r.guest_name)).1;
  version = x;
}

-- The rows that a batch selects, by id.
unfoldable pub batch : (ℕ → Bool) → ℕ → ℕ → List Reservation → List Reservation
batch locked size last_id rows = take size (
    order_by (λ r q. leb r.id q.id)
      (select (λ r. ltb last_id r.id && is_awaiting r && not (locked r.id)) rows))

-- `WHERE id = :row_id AND first_name IS NULL`, for the list of parameter sets of one batch.
abbrev pub is_target : List Reservation → Reservation → Bool
is_target b r = is_awaiting r && any (λ q. q.id == r.id) b

-- The UPDATE of one batch.
unfoldable pub fill : ℕ → List Reservation → List Reservation → List Reservation
fill x b rows = map (λ r. if is_target b r then filled_row x r else r) rows

-- The id of the last row of a batch.
abbrev pub last_of : Reservation → List Reservation → ℕ
last_of r [] = r.id
last_of r (q ∷ qs) = last_of q qs

-- One pass: the number of rows filled, and the table. `none` means that the fuel ran out.
unfoldable pub run_pass :
    ℕ → (ℕ → ℕ → Bool) → (ℕ → ℕ) → ℕ → ℕ → ℕ → ℕ → List Reservation → Option (ℕ × List Reservation)
run_pass zero locked xid size n last_id filled rows = none
run_pass (suc fuel) locked xid size n last_id filled rows =
    elim (batch (locked n) size last_id rows) [
      | [] ↦ some (filled, rows)
      | r ∷ b ↦
          run_pass fuel locked xid size (suc n) (last_of r b)
            (filled + count_where (is_target (r ∷ b)) rows) (fill (xid n) (r ∷ b) rows)
    ]

-- The passes that are left of MAX_PASSES. A pass gets more fuel than rows await their names.
unfoldable pub run_backfill :
    ℕ
    → (ℕ → ℕ → ℕ → Bool)
    → (ℕ → ℕ → ℕ)
    → ℕ
    → ℕ
    → ℕ
    → ℕ
    → List Reservation
    → Option (ℕ × List Reservation)
run_backfill zero locked xid size n start_after total rows = some (total, rows)
run_backfill (suc passes) locked xid size n start_after total rows =
    elim (run_pass (suc (awaiting rows)) (locked n) (xid n) size 0 start_after 0 rows) [
      | none ↦ none
      | some (filled, after) ↦ elim (awaiting after == 0 || filled == 0) [
        | true ↦ some (total + filled, after)
        | false ↦ run_backfill passes locked xid size (suc n) 0 (total + filled) after
      ]
    ]

abbrev pub max_passes : ℕ
max_passes = 5

-- `verify`, where guest_name is still there.
unfoldable pub verify : (ℕ → Bool) → List Reservation → Bool
verify pg_space rows = awaiting rows == 0 && count_where (name_mismatch pg_space) rows == 0
