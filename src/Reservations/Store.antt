-- ===== src/Reservations/Store.antt =====
-- The statements on the reservations table that the service issues: what the SQL of the source and
-- the constraints that it declares mean for the rows.
use restaurant_reservation_s.Prelude.{
  ℕ, Bool, true, false, not, ◌&&◌, ◌||◌, List, [], ◌∷◌, ◌++◌, Option, none, some, ◌==◌, any, all,
  if◌then◌else◌,
}
use restaurant_reservation_s.Http.{
  Outcome, ok, raised, integrity_error, undefined_column, stale_data_error, Constraint,
  no_double_booking, ck_reservations_party, ck_reservations_time_order, guest_name_not_null,
  first_name_not_null, last_name_not_null, fk_reservations_user, fk_reservations_restaurant,
  fk_reservations_table,
}
use restaurant_reservation_s.Names.{Text}
use restaurant_reservation_s.Models.Reservation.{
  Reservation, NameWrite, Changes, apply, party_check, time_order_check, conflicts,
}
use restaurant_reservation_s.Database.{
  Db, Columns, Engine, find_user, find_restaurant, find_table, find_reservation,
}
use restaurant_reservation_s.Migration.Phase.{Phase, read_columns, has_column}
use restaurant_reservation_s.Action.{Action}

abbrev pub is_some {ℓ} : {A : Type ℓ} → Option A → Bool
is_some none = false
is_some (some _) = true

-- Whether the statement names a column that the table does not have. Columns that were not set are
-- left out of it (FetchedValue).
unfoldable pub writes_missing : Columns → NameWrite → Bool
writes_missing cs w =
    (is_some w.guest_name && not cs.guest_name_present)
    || (is_some w.first_name && not cs.new_columns_present)
    || (is_some w.last_name && not cs.new_columns_present)

abbrev pub violated : Bool → Constraint → List Constraint
violated true c = []
violated false c = c ∷ []

-- A column that is there, is NOT NULL and gets no value.
abbrev pub not_null_check : Bool → Bool → Option Text → Bool
not_null_check is_present nullable v = not is_present || nullable || is_some v

-- The constraints that concern the row alone: CHECK and NOT NULL.
unfoldable pub row_violations : Columns → Reservation → List Constraint
row_violations cs r =
    violated (party_check r) ck_reservations_party
    ++ (violated (time_order_check r) ck_reservations_time_order
        ++ (violated (not_null_check cs.guest_name_present cs.guest_name_nullable r.guest_name)
              guest_name_not_null
            ++ (violated (not_null_check cs.new_columns_present cs.first_name_nullable r.first_name)
                  first_name_not_null
                ++ violated
                    (not_null_check cs.new_columns_present cs.last_name_nullable r.last_name)
                    last_name_not_null)))

-- The foreign keys.
unfoldable pub key_violations : Db → Reservation → List Constraint
key_violations s r =
    violated (is_some (find_user r.user_id s.users)) fk_reservations_user
    ++ (violated (is_some (find_restaurant r.restaurant_id s.restaurants))
          fk_reservations_restaurant
        ++ violated (is_some (find_table r.restaurant_table_id s.tables)) fk_reservations_table)

-- The rows of the table other than the one with this id.
unfoldable pub others : ℕ → List Reservation → List Reservation
others i [] = []
others i (r ∷ rs) = if r.id == i then others i rs else r ∷ others i rs

-- no_double_booking, for a row that is written among these.
unfoldable pub booking_violations : List Reservation → Reservation → List Constraint
booking_violations rs r = violated (not (any (conflicts r) rs)) no_double_booking

abbrev pub checked {ℓ} : {A : Type ℓ} → Engine → List Constraint → Outcome A → Outcome A
checked e [] r = r
checked e (c ∷ cs) r = raised (integrity_error (e.report c cs))

abbrev pub after_write : Db → Outcome Reservation → (Reservation → Db) → Outcome Reservation × Db
after_write s (raised x) f = (raised x, s)
after_write s (ok r) f = (ok r, f r)

abbrev pub names_of : Reservation → NameWrite
names_of r = record {
  guest_name = r.guest_name;
  first_name = r.first_name;
  last_name = r.last_name;
}

-- INSERT INTO reservations, and COMMIT.
unfoldable pub insert_outcome : Engine → Db → Reservation → Outcome Reservation
insert_outcome e s r =
    if writes_missing s.columns (names_of r)
    then raised undefined_column
    else checked e
        (row_violations s.columns r ++ (booking_violations s.reservations r ++ key_violations s r))
        (ok (record r {
          id = e.next_reservation_id s.reservations;
          version = e.next_xid s.reservations;
          created_at = e.now;
        }))

unfoldable pub insert_reservation : Engine → Reservation → Action Reservation
unfolding insert_outcome
insert_reservation e r s =
    after_write s (insert_outcome e s r) (λ row. record s { reservations = row ∷ s.reservations })

-- The table with the row of that id replaced.
unfoldable pub replace : Reservation → List Reservation → List Reservation
replace r [] = []
replace r (q ∷ qs) = if q.id == r.id then r ∷ qs else q ∷ replace r qs

-- UPDATE reservations SET ... WHERE id = :id AND xmin = :version, and COMMIT, for the attributes set
-- on the row that the session has read. No row that matches is StaleDataError.
unfoldable pub update_row : Engine → Db → Changes → Reservation → Outcome Reservation
update_row e s c q =
    if writes_missing s.columns c.names
    then raised undefined_column
    else checked e
        (row_violations s.columns (apply c q)
          ++ booking_violations (others q.id s.reservations) (apply c q))
        (ok (record (apply c q) { version = e.next_xid s.reservations }))

abbrev pub matching : ℕ → Option Reservation → Option Reservation
matching v none = none
matching v (some q) = if q.version == v then some q else none

unfoldable pub update_outcome : Engine → Db → Reservation → Changes → Outcome Reservation
unfolding update_row
update_outcome e s loaded c =
    elim (matching loaded.version (find_reservation loaded.id s.reservations)) [
      | none ↦ raised stale_data_error
      | some q ↦ update_row e s c q
    ]

abbrev pub after_update : Db → Outcome Reservation → Outcome (Unit {0}) × Db
after_update s (raised x) = (raised x, s)
after_update s (ok row) = (ok tt, record s { reservations = replace row s.reservations })

-- `session.commit()` of such a session: nothing is sent when nothing has changed.
unfoldable pub commit : Engine → Reservation → Changes → Db → Outcome (Unit {0}) × Db
unfolding update_outcome
commit e loaded c s =
    if e.emits loaded c then after_update s (update_outcome e s loaded c) else (ok tt, s)

-- A SELECT that loads the name columns of the phase.
unfoldable pub select_reservation : Phase → ℕ → Db → Outcome (Option Reservation)
select_reservation p i s =
    if all (has_column s.columns) (read_columns p)
    then ok (find_reservation i s.reservations)
    else raised undefined_column
