-- ===== src/Migration/Fit.antt =====
-- A phase fits a schema: no statement of the service names a column that is not there, and no INSERT
-- leaves a NOT NULL column out.
use restaurant_reservation_s.Prelude.{◌≡◌, true, not, ◌||◌, all}
use restaurant_reservation_s.Database.{Columns}
use restaurant_reservation_s.Migration.Phase.{
  Phase, guest_name, first_name, last_name, contains, write_columns, read_columns, has_column,
}

pub record Fits (p : Phase) (cs : Columns) : Type 0 where
  pub writes : all (has_column cs) (write_columns p) ≡ true
  pub reads : all (has_column cs) (read_columns p) ≡ true
  pub guest_name_filled :
      (not cs.guest_name_present || cs.guest_name_nullable || contains guest_name (write_columns p))
      ≡ true
  pub first_name_filled :
      (not cs.new_columns_present
        || cs.first_name_nullable
        || contains first_name (write_columns p))
      ≡ true
  pub last_name_filled :
      (not cs.new_columns_present || cs.last_name_nullable || contains last_name (write_columns p))
      ≡ true
