-- ===== src/Migration/Revisions.antt =====
-- The Alembic revisions that move a guest's name from one column to two (alembic/versions/0002, 0003
-- and 0004; 0001 creates the table).
use restaurant_reservation_s.Prelude.{
  true, false, none, some, ltb, count_where, any, map, if◌then◌else◌,
}
use restaurant_reservation_s.Http.{ok, raised, integrity_error, runtime_error, last_name_not_null}
use restaurant_reservation_s.Names.{Text}
use restaurant_reservation_s.Models.Reservation.{Reservation}
use restaurant_reservation_s.Database.{Db, Columns}
use restaurant_reservation_s.Action.{Action}
use restaurant_reservation_s.Migration.Schema.{btrim, concat_ws, is_null}

-- The columns that revision 0001 creates.
abbrev pub initial_columns : Columns
initial_columns = record {
  guest_name_present = true;
  guest_name_nullable = false;
  new_columns_present = false;
  first_name_nullable = false;
  last_name_nullable = false;
}

-- 0002 adds both columns as NULL.
unfoldable pub upgrade_0002 : Db → Db
upgrade_0002 s = record s {
  columns = record s.columns {
    new_columns_present = true;
    first_name_nullable = true;
    last_name_nullable = true;
  };
  reservations =
      map {A = Reservation} (λ r. record r { first_name = none; last_name = none }) s.reservations;
}

-- The backward revision of 0002 drops them.
unfoldable pub downgrade_0002 : Db → Db
downgrade_0002 s = record s {
  columns = record s.columns {
    new_columns_present = false;
    first_name_nullable = false;
    last_name_nullable = false;
  };
  reservations =
      map {A = Reservation} (λ r. record r { first_name = none; last_name = none }) s.reservations;
}

unfoldable pub upgrade_0003 : Db → Db
upgrade_0003 s = record s { columns = record s.columns { guest_name_nullable = true } }

-- btrim(concat_ws(' ', first_name, last_name))
abbrev pub joined_name : Reservation → Text
joined_name r = btrim (concat_ws r.first_name r.last_name)

abbrev fill_guest_name : Reservation → Reservation
fill_guest_name r =
    if is_null r.guest_name then record r { guest_name = some (joined_name r) } else r

unfoldable pub downgrade_0003 : Db → Db
downgrade_0003 s = record s {
  columns = record s.columns { guest_name_nullable = false };
  reservations = map fill_guest_name s.reservations;
}

-- The steps of 0004 commit one by one. Each count looks for a row that the constraint refuses.
abbrev drop_guest_name : Db → Db
drop_guest_name s = record s {
  columns = record s.columns { guest_name_present = false; guest_name_nullable = false };
  reservations = map {A = Reservation} (λ r. record r { guest_name = none }) s.reservations;
}

abbrev require_first_name : Db → Db
require_first_name s = record s { columns = record s.columns { first_name_nullable = false } }

abbrev require_last_name : Db → Db
require_last_name s = record s { columns = record s.columns { last_name_nullable = false } }

unfoldable pub upgrade_0004 : Action (Unit {0})
upgrade_0004 s =
    if ltb 0 (count_where (λ r. is_null r.first_name) s.reservations)
    then (raised runtime_error, s)
    else if any (λ r. is_null r.last_name) s.reservations
    then (raised (integrity_error last_name_not_null), require_first_name s)
    else (ok tt, drop_guest_name (require_last_name (require_first_name s)))

unfoldable pub downgrade_0004 : Db → Db
downgrade_0004 s = record s {
  columns = record s.columns {
    guest_name_present = true;
    guest_name_nullable = true;
    first_name_nullable = true;
    last_name_nullable = true;
  };
  reservations =
      map {A = Reservation} (λ r. record r { guest_name = some (joined_name r) }) s.reservations;
}
