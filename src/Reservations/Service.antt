-- ===== src/Reservations/Service.antt =====
-- app/services/reservations.py: booking, editing and cancelling. The phase is the one that the
-- process is in while the call runs.
use restaurant_reservation_s.Prelude.{ℕ, Option, none, some, ◌==◌, leb, if◌then◌else◌}
use restaurant_reservation_s.Http.{
  Outcome, ok, raised, http_exception, integrity_error, stale_data_error, attribute_error,
  Exception, no_double_booking, table_not_found, wrong_restaurant, table_not_bookable,
  party_exceeds_capacity, already_booked, violates_constraint, changed_concurrently,
}
use restaurant_reservation_s.Names.{Text, split_guest_name}
use restaurant_reservation_s.Models.Reservation.{
  Reservation, NameWrite, Changes, confirmed, cancelled,
}
use restaurant_reservation_s.Database.{Engine, find_table}
use restaurant_reservation_s.Migration.Phase.{
  Phase, guest_name, first_name, last_name, contains, write_columns,
}
use restaurant_reservation_s.Action.{Action, ◌>>=◌, ◌>>◌, require, find_or_raise, reading}
use restaurant_reservation_s.Reservations.Requests.{ReservationCreate, ReservationUpdate}
use restaurant_reservation_s.Reservations.Store.{insert_reservation, commit, select_reservation}

-- `write_name`: the columns that the phase writes, with their values.
unfoldable pub write_name : Phase → Text → NameWrite
write_name p name = record {
  guest_name = if contains guest_name (write_columns p) then some name else none;
  first_name =
      if contains first_name (write_columns p) then some (split_guest_name name).0 else none;
  last_name = if contains last_name (write_columns p) then some (split_guest_name name).1 else none;
}

abbrev pub no_names : NameWrite
no_names = record { guest_name = none; first_name = none; last_name = none }

abbrev found : Outcome (Option Reservation) → Outcome Reservation
found (ok (some r)) = ok r
found (ok none) = raised attribute_error
found (raised x) = raised x

-- `reload`: reads the row again after a commit.
unfoldable pub reload : Phase → ℕ → Action Reservation
reload p i = reading (λ s. found (select_reservation p i s))

-- The row that `create_reservation` adds to the session. The id, the version and created_at are the
-- database's to fill in.
unfoldable pub new_reservation : Phase → ℕ → ReservationCreate → Reservation
unfolding write_name
new_reservation p user_id b = record {
  id = 0;
  user_id = user_id;
  restaurant_id = b.restaurant_id;
  restaurant_table_id = b.restaurant_table_id;
  guest_name = (write_name p b.guest_name).guest_name;
  first_name = (write_name p b.guest_name).first_name;
  last_name = (write_name p b.guest_name).last_name;
  party_size = b.party_size;
  starts_at = b.starts_at;
  ends_at = b.ends_at;
  status = confirmed;
  created_at = 0;
  version = 0;
}

-- `except IntegrityError`
abbrev pub translate_insert : Exception → Exception
translate_insert (integrity_error no_double_booking) = http_exception 409 already_booked
translate_insert (integrity_error _) = http_exception 400 violates_constraint
translate_insert x = x

-- `except StaleDataError`
abbrev pub translate_commit : Exception → Exception
translate_commit stale_data_error = http_exception 409 changed_concurrently
translate_commit x = x

-- `try: ... except`: `f` is what the handler makes of the exception.
abbrev pub catching : {A : Type 0} → (Exception → Exception) → Action A → Action A
catching f m s = let (r, s') = m s in elim r [ ok a ↦ (ok a, s') | raised x ↦ (raised (f x), s') ]

-- The `try` block of `create_reservation`, and the reload.
unfoldable pub book : Engine → Phase → Reservation → Action Reservation
unfolding reload
book e p r = do row ← catching translate_insert (insert_reservation e r); reload p row.id

-- The ids of the body are taken to fit BIGINT, and its name to have no NUL.
unfoldable pub create_reservation : Engine → Phase → ℕ → ReservationCreate → Action Reservation
create_reservation e p user_id b = do
  table ← find_or_raise (λ s. find_table b.restaurant_table_id s.tables) 404 table_not_found
  require (table.restaurant_id == b.restaurant_id) 400 wrong_restaurant
  require table.is_active 400 table_not_bookable
  require (leb b.party_size table.capacity) 400 party_exceeds_capacity
  book e p (new_reservation p user_id b)

-- `_commit_versioned`
unfoldable pub commit_versioned : Engine → Reservation → Changes → Action (Unit {0})
commit_versioned e loaded c = catching translate_commit (commit e loaded c)

-- The attributes that `update_reservation` sets.
unfoldable pub update_changes : Phase → ReservationUpdate → Changes
unfolding write_name
update_changes p b = record {
  names = elim b.guest_name [ none ↦ no_names | some name ↦ write_name p name ];
  party_size = b.party_size;
  status = b.status;
}

-- The commit of an edit, and the reload.
unfoldable pub edit : Engine → Phase → Reservation → Changes → Action Reservation
unfolding reload
edit e p loaded c = do commit_versioned e loaded c; reload p loaded.id

unfoldable pub update_reservation :
    Engine → Phase → Reservation → ReservationUpdate → Action Reservation
update_reservation e p loaded b = edit e p loaded (update_changes p b)

abbrev pub cancel_changes : Changes
cancel_changes = record { names = no_names; party_size = none; status = some cancelled }

unfoldable pub cancel_reservation : Engine → Phase → Reservation → Action Reservation
cancel_reservation e p loaded = edit e p loaded cancel_changes
