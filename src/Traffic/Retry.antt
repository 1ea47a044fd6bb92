-- ===== src/Traffic/Retry.antt =====
-- A rename of steady mode from the script's side (scripts/traffic.py, Steady.rename).
use restaurant_reservation_s.Prelude.{
  ℕ, suc, ◌≡◌, refl, ◌∙◌, [], ◌∷◌, Option, none, some, ◌==◌, ==-refl, arith, Bool-cases, inl, inr,
  text_eq_refl, ◌≤◌, length,
}
use restaurant_reservation_s.Names.{Text}
use restaurant_reservation_s.Models.User.{User}
use restaurant_reservation_s.Models.Reservation.{Reservation}
use restaurant_reservation_s.Database.{Db, Engine}
use restaurant_reservation_s.Migration.Phase.{Phase}
use restaurant_reservation_s.Reservations.Service.{update_changes}
use restaurant_reservation_s.Reservations.Cases.{with_replaced}
use restaurant_reservation_s.Reservations.Success.{edited_row}
use restaurant_reservation_s.Traffic.{
  Reply, Round, Steady, patch, rejected, server_errors, conflicts, rename, read, call, check_name,
  lookup,
}
use restaurant_reservation_s.Traffic.Serving.{served, name_body}
use restaurant_reservation_s.Traffic.Answers.{
  MayRename, renamed_row, won, refused, seen_again, served-current, served-stale,
}

-- The script holds the new name and the version of the row, and has counted nothing as a failure.
pub record IsRenamed (i : ℕ) (name : Text) (version : ℕ) (before after : Steady) : Type 0 where
  pub name_expected : lookup i after.expected ≡ some name
  pub version_seen : lookup i after.version ≡ some version
  pub no_bad_field : after.stats.bad_fields ≡ before.stats.bad_fields
  pub no_rejection : rejected after.stats ≡ rejected before.stats
  pub no_server_error : server_errors after.stats ≡ server_errors before.stats
  pub no_error : after.stats.errors ≡ before.stats.errors

module _ {e : Engine} {p : Phase} {user : User} {i : ℕ} {name : Text} {s : Db} {row : Reservation}
    {old_name : Text} (m : MayRename e p user i name s row old_name) where
  abbrev succeeded : Round
  succeeded = record { patched = some (won m); patched_ms = 0; reread = none; reread_ms = 0 }

  abbrev tried_again : Round
  tried_again = record {
    patched = some (refused m);
    patched_ms = 0;
    reread = some (seen_again m);
    reread_ms = 0;
  }

  rename-succeeded :
      (last : Option Reply) (st : Steady)
      → IsRenamed i name (renamed_row m).version st (rename i name last (succeeded ∷ []) st)
  unfolding rename call check_name lookup rejected server_errors conflicts
  rename-succeeded last st = record {
    name_expected = ground (arith, text_eq_refl name, ==-refl i);
    version_seen = ground (arith, text_eq_refl name, ==-refl i);
    no_bad_field = ground (arith, text_eq_refl name, ==-refl i);
    no_rejection = ground (arith, text_eq_refl name, ==-refl i);
    no_server_error = ground (arith, text_eq_refl name, ==-refl i);
    no_error = ground (arith, text_eq_refl name, ==-refl i);
  }

  abbrev after_read : Steady → Steady
  after_read st = read i (some (seen_again m)) 0 (call patch (some (refused m)) 0 st)

  after_read-version :
      (st : Steady)
      → lookup i st.expected ≡ some old_name
      → lookup i (after_read st).version ≡ some row.version
  unfolding read call check_name lookup
  after_read-version st known = rw known (ground (arith, text_eq_refl old_name, ==-refl i))

  rename-retried :
      (st : Steady)
      → lookup i st.expected ≡ some old_name
      → IsRenamed i name
          (renamed_row m).version
          st
          (rename i name none (tried_again ∷ succeeded ∷ []) st)
  unfolding rename read call check_name lookup rejected server_errors conflicts
  rename-retried st known =
      let last = rename-succeeded (some (refused m)) (after_read st) in
      record {
        name_expected = last.name_expected;
        version_seen = last.version_seen;
        no_bad_field = last.no_bad_field ∙ rw known (ground (arith, text_eq_refl old_name));
        no_rejection = last.no_rejection ∙ rw known (ground (arith, text_eq_refl old_name));
        no_server_error = last.no_server_error ∙ rw known (ground (arith, text_eq_refl old_name));
        no_error = last.no_error ∙ rw known (ground (arith, text_eq_refl old_name));
      }

  -- In a phase that fits the schema of a valid database, `rename` of the user's own reservation, which
  -- can be read in the phase, to a name of 2 to 120 characters with single spaces and parts of at most 60
  -- succeeds with one or two PATCHes, whatever version the script saw last, if no other request comes in
  -- between and the UPDATE is sent: the row is stored with its new name and a new version, the script
  -- holds that name and that version, and counts no wrong name, no rejection, no 5xx and no connection
  -- error.
  pub rename-served :
      (tries known : ℕ) (st : Steady)
      → lookup i st.version ≡ some known
      → lookup i st.expected ≡ some old_name
      → let run = served e p user i name (suc (suc tries)) st s in
        (length run.0 ≤ 2)
        × (run.1 ≡ with_replaced s (edited_row e s (update_changes p (name_body name)) row))
        × IsRenamed i name
            (edited_row e s (update_changes p (name_body name)) row).version
            st
            (rename i name none run.0 st)
  rename-served tries known st look expected = elim (Bool-cases (row.version == known)) [
    | inl same ↦
        rw (served-current m (suc tries) known st look same)
          (omega arith, refl, rename-succeeded none st)
    | inr old ↦
        rw
          (
            served-stale m (suc tries) known st look old,
            served-current m tries row.version (after_read st) (after_read-version st expected)
                (==-refl row.version),
          )
          (omega arith, refl, rename-retried st expected)
  ]
