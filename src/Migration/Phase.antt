-- ===== src/Migration/Phase.antt =====
-- The phases and their columns (app/migration.py, WRITE_COLUMNS and READ_COLUMNS).
use restaurant_reservation_s.Prelude.{Bool, true, false, List, [], ◌∷◌, any}
use restaurant_reservation_s.Database.{Columns}

pub data Phase : Type 0 where
  legacy dual_write read_new new_only : Phase

pub data NameColumn : Type 0 where
  guest_name first_name last_name : NameColumn

abbrev pub column_eq : NameColumn → NameColumn → Bool
column_eq guest_name guest_name = true
column_eq first_name first_name = true
column_eq last_name last_name = true
column_eq _ _ = false

-- `column in columns`
abbrev pub contains : NameColumn → List NameColumn → Bool
contains c cs = any (column_eq c) cs

-- WRITE_COLUMNS[phase], which `write_columns()` gives for the current phase.
abbrev pub write_columns : Phase → List NameColumn
write_columns legacy = guest_name ∷ []
write_columns dual_write = guest_name ∷ first_name ∷ last_name ∷ []
write_columns read_new = guest_name ∷ first_name ∷ last_name ∷ []
write_columns new_only = first_name ∷ last_name ∷ []

-- READ_COLUMNS[phase]
abbrev pub read_columns : Phase → List NameColumn
read_columns legacy = guest_name ∷ []
read_columns dual_write = guest_name ∷ []
read_columns read_new = first_name ∷ last_name ∷ []
read_columns new_only = first_name ∷ last_name ∷ []

-- Whether the reservations table has a column.
abbrev pub has_column : Columns → NameColumn → Bool
has_column cs guest_name = cs.guest_name_present
has_column cs first_name = cs.new_columns_present
has_column cs last_name = cs.new_columns_present
