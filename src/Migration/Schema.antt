-- ===== src/Migration/Schema.antt =====
-- The state of the schema and the gate before a phase change (app/migration.py, name_mismatch,
-- schema_state, refusal, set_phase and reconcile_with_schema). `pg_space` is what `\s` matches in
-- PostgreSQL, which depends on the locale of the server.
use restaurant_reservation_s.Prelude.{
  ℕ, Bool, true, false, not, ◌&&◌, List, [], ◌∷◌, ◌++◌, Option, none, some, ◌==◌, ltb,
  if◌then◌else◌, text_eq, count_where,
}
use restaurant_reservation_s.Names.{Text, space, join}
use restaurant_reservation_s.Models.Reservation.{Reservation}
use restaurant_reservation_s.Database.{Db, Columns}
use restaurant_reservation_s.Migration.Phase.{
  Phase, legacy, dual_write, read_new, new_only, NameColumn, guest_name, first_name, contains,
  write_columns, read_columns,
}

-- btrim(s): drops the spaces, and no other white space, at both ends.
unfoldable pub trim_left : Text → Text
trim_left [] = []
trim_left (c ∷ s) = if c == space then trim_left s else c ∷ s

unfoldable pub cons_trimmed : ℕ → Text → Text
cons_trimmed c [] = if c == space then [] else c ∷ []
cons_trimmed c (d ∷ s) = c ∷ d ∷ s

unfoldable pub trim_right : Text → Text
unfolding cons_trimmed
trim_right [] = []
trim_right (c ∷ s) = cons_trimmed c (trim_right s)

unfoldable pub btrim : Text → Text
btrim s = trim_right (trim_left s)

-- concat_ws(' ', first_name, last_name) skips a NULL, but not an empty text.
unfoldable pub not_null : Option Text → List Text
not_null none = []
not_null (some s) = s ∷ []

unfoldable pub concat_ws : Option Text → Option Text → Text
unfolding not_null
concat_ws first last = join (not_null first ++ not_null last)

module _ (pg_space : ℕ → Bool) where
  -- regexp_replace(s, '\s+', ' ', 'g'): each run of white space becomes one space. The flag says
  -- that the character before belonged to such a run.
  unfoldable pub squeeze : Bool → Text → Text
  squeeze run [] = []
  squeeze run (c ∷ s) =
      let rest = squeeze (pg_space c) s in
      if pg_space c then (if run then rest else space ∷ rest) else c ∷ rest

  unfoldable pub name_mismatch : Reservation → Bool
  unfolding squeeze btrim concat_ws
  name_mismatch r = differs r.first_name r.guest_name
    where
      differs : Option Text → Option Text → Bool
      differs (some first) (some guest) =
          not (text_eq (btrim (concat_ws r.first_name r.last_name)) (squeeze false (btrim guest)))
      differs _ _ = false

abbrev pub is_null : Option Text → Bool
is_null none = true
is_null (some _) = false

pub record SchemaState : Type 0 where
  pub guest_name_present : Bool
  pub guest_name_nullable : Bool
  pub new_columns_present : Bool
  pub awaiting_backfill : Option ℕ
  pub mismatched : Option ℕ
  pub missing_legacy : Option ℕ

unfoldable pub schema_state : (ℕ → Bool) → Db → SchemaState
schema_state pg_space s = record {
  guest_name_present = cs.guest_name_present;
  guest_name_nullable = cs.guest_name_present && cs.guest_name_nullable;
  new_columns_present = cs.new_columns_present;
  awaiting_backfill =
      if cs.new_columns_present
      then some (count_where (λ r. is_null r.first_name) s.reservations)
      else none;
  mismatched =
      if cs.new_columns_present && cs.guest_name_present
      then some (count_where (name_mismatch pg_space) s.reservations)
      else none;
  missing_legacy =
      if cs.guest_name_present
      then some (count_where (λ r. is_null r.guest_name) s.reservations)
      else none;
}
  where
    cs : Columns
    cs = s.columns

-- A count that Python takes for true: not None and not 0.
abbrev pub truthy : Option ℕ → Bool
truthy none = false
truthy (some n) = ltb 0 n

pub data Refusal : Type 0 where
  guest_name_dropped new_columns_missing guest_name_null : Refusal
  awaiting_backfill names_disagree guest_name_required : Refusal

-- `refusal(target, state)`: the reason why `target` is not allowed now, or None.
unfoldable pub refusal : Phase → SchemaState → Option Refusal
refusal target state =
    if uses guest_name && not state.guest_name_present
    then some guest_name_dropped
    else if uses first_name && not state.new_columns_present
    then some new_columns_missing
    else if contains guest_name reads && truthy state.missing_legacy
    then some guest_name_null
    else if contains first_name reads && truthy state.awaiting_backfill
    then some Refusal.awaiting_backfill
    else if contains first_name reads && truthy state.mismatched
    then some names_disagree
    else if not (contains guest_name writes)
        && state.guest_name_present
        && not state.guest_name_nullable
    then some guest_name_required
    else none
  where
    writes : List NameColumn
    writes = write_columns target

    reads : List NameColumn
    reads = read_columns target

    uses : NameColumn → Bool
    uses c = contains c (writes ++ reads)

abbrev pub is_allowed : Phase → SchemaState → Bool
is_allowed p state = elim (refusal p state) [ none ↦ true | some _ ↦ false ]

-- The loop of `reconcile_with_schema` over its candidates.
unfoldable pub first_allowed : List Phase → SchemaState → Phase → Phase
first_allowed [] state current = current
first_allowed (p ∷ ps) state current =
    if is_allowed p state then p else first_allowed ps state current

-- The phase that the process runs in afterwards.
unfoldable pub reconcile_with_schema : Phase → SchemaState → Phase
unfolding first_allowed
reconcile_with_schema current state =
    if is_allowed current state
    then current
    else first_allowed (new_only ∷ read_new ∷ dual_write ∷ legacy ∷ []) state current
