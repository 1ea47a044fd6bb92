-- ===== src/Rollout/Completion.antt =====
-- The documented procedure from the first schema to the last (docs/MIGRATION.md): 0002, dual_write, the
-- backfill, read_new, 0003, new_only, 0004.
use restaurant_reservation_s.Prelude.{
  ℕ, suc, ◌<◌, ◌≡◌, refl, ap, sym, subst, ◌∙◌, Bool, true, false, List, [], ◌∷◌, Option, none, some,
  any, map, count_where, All, arith,
}
use restaurant_reservation_s.Http.{ok}
use restaurant_reservation_s.Names.{Text, space, is_space, words, join}
use restaurant_reservation_s.Names.Split.{NameFits, rebuilt_name-split}
use restaurant_reservation_s.Models.Reservation.{Reservation}
use restaurant_reservation_s.Database.{Db}
use restaurant_reservation_s.Migration.Phase.{Phase, legacy, dual_write, read_new, new_only}
use restaurant_reservation_s.Migration.Schema.{schema_state, refusal, is_null}
use restaurant_reservation_s.Migration.Revisions.{
  initial_columns, upgrade_0002, upgrade_0003, upgrade_0004,
}
use restaurant_reservation_s.Reservations.Routes.{read_name}
use restaurant_reservation_s.Backfill.{
  is_awaiting, awaiting, filled_row, run_backfill, max_passes, verify,
}
use restaurant_reservation_s.Backfill.Passes.{Filled, same, filled, AllFilled}
use restaurant_reservation_s.Backfill.Opening.{
  IsClean, waits, run_backfill-total, backfill-opens_read_new,
}
use restaurant_reservation_s.Rollout.{put_migration}

-- The guest's name has single spaces only, and parts of at most 60 characters.
pub record IsPlain (r : Reservation) : Type 0 where
  pub full : Text
  pub named : r.guest_name ≡ some full
  pub single_spaces : full ≡ join (words full)
  pub parts_fit : NameFits (words full)

-- The row of a reservation at the end: it is read with the same name, and nothing changed but the
-- columns of the name and the version.
pub record Migrated (r q : Reservation) : Type 0 where
  pub reads_name : read_name new_only new_only q ≡ ok r.guest_name
  pub keeps_rest : q ≡ record r {
    guest_name = none;
    first_name = q.first_name;
    last_name = q.last_name;
    version = q.version;
  }

abbrev pub AllMigrated : List Reservation → List Reservation → Type 0
AllMigrated [] [] = Unit
AllMigrated (r ∷ rs) (q ∷ qs) = Migrated r q × AllMigrated rs qs
AllMigrated _ _ = ⊥

abbrev without_names : Reservation → Reservation
without_names r = record r { first_name = none; last_name = none }

abbrev without_guest_name : Reservation → Reservation
without_guest_name r = record r { guest_name = none }

filled-Migrated :
    (x : ℕ) (r : Reservation)
    → IsPlain r
    → Migrated r (without_guest_name (filled_row x (without_names r)))
unfolding filled_row read_name
filled-Migrated x r h = record {
  reads_name =
      rw h.named
        (ap (λ t. ok (some t)) (rebuilt_name-split h.full h.parts_fit ∙ sym h.single_spaces));
  keeps_rest = refl;
}

AllMigrated-filled :
    (rows after : List Reservation)
    → All IsPlain rows
    → AllFilled (map without_names rows) after
    → awaiting after ≡ 0
    → AllMigrated rows (map without_guest_name after)
      × (any (λ r. is_null r.last_name) after ≡ false)
unfolding awaiting
AllMigrated-filled [] [] p f h = (tt, refl)
AllMigrated-filled [] (q ∷ after) p f h = elim f [ ]
AllMigrated-filled (r ∷ rows) [] p f h = elim f [ ]
AllMigrated-filled (r ∷ rows) (q ∷ after) p f h =
    go q f.0 (ground (arith, h)) (AllMigrated-filled rows after p.1 f.1 (omega (arith, h)))
  where
    go :
        (q : Reservation)
        → Filled (without_names r) q
        → is_awaiting q ≡ false
        → AllMigrated rows (map without_guest_name after)
          × (any (λ r. is_null r.last_name) after ≡ false)
        → AllMigrated (r ∷ rows) (map without_guest_name (q ∷ after))
          × (any (λ r. is_null r.last_name) (q ∷ after) ≡ false)
    go q same n rest = cc
    go q (filled x a) n rest = ((filled-Migrated x r p.0, rest.0), unfold filled_row in rest.1)

stripped-IsClean :
    (pg_space : ℕ → Bool) (at_space : pg_space space ≡ true)
    (at_others : (c : ℕ) → is_space c ≡ false → pg_space c ≡ false) (rows : List Reservation)
    → All IsPlain rows
    → All (IsClean pg_space at_space at_others) (map without_names rows)
stripped-IsClean pg_space at_space at_others [] h = tt
stripped-IsClean pg_space at_space at_others (r ∷ rows) h = (
  waits h.0.full refl h.0.named h.0.single_spaces h.0.parts_fit,
  stripped-IsClean pg_space at_space at_others rows h.1,
)

stripped-ids :
    (rows : List Reservation)
    → All (λ r. 0 < r.id) rows
    → All (λ r. 0 < r.id) (map without_names rows)
stripped-ids [] h = tt
stripped-ids (r ∷ rows) h = (h.0, stripped-ids rows h.1)

no_null_names :
    (rows : List Reservation)
    → All IsPlain rows
    → count_where (λ r. is_null r.guest_name) (map without_names rows) ≡ 0
no_null_names [] h = refl
no_null_names (r ∷ rows) h = rw (h.0.named, no_null_names rows h.1) refl

admitted-enters :
    (pg_space : ℕ → Bool) (target current : Phase) (s : Db)
    → refusal target (schema_state pg_space s) ≡ none
    → put_migration pg_space target current s ≡ (ok tt, target)
unfolding put_migration
admitted-enters pg_space target current s h = rw (h, put_migration) refl

dual_write_admitted :
    (pg_space : ℕ → Bool) (s : Db)
    → s.columns.guest_name_present ≡ true
    → All IsPlain s.reservations
    → refusal dual_write (schema_state pg_space (upgrade_0002 s)) ≡ none
unfolding refusal schema_state upgrade_0002
dual_write_admitted pg_space s old plain = rw (old, no_null_names s.reservations plain) refl

upgrade_0004_succeeds :
    (s : Db)
    → awaiting s.reservations ≡ 0
    → any (λ r. is_null r.last_name) s.reservations ≡ false
    → ((upgrade_0004 s).0 ≡ ok tt)
      × ((upgrade_0004 s).1.reservations ≡ map without_guest_name s.reservations)
unfolding upgrade_0004 awaiting
upgrade_0004_succeeds s h k = rw (h, k) (refl, refl)

-- Once the names are filled and agree, new_only is admitted when guest_name is nullable.
new_only_admitted :
    (pg_space : ℕ → Bool) (s : Db)
    → s.columns.guest_name_present ≡ true
    → s.columns.guest_name_nullable ≡ true
    → s.columns.new_columns_present ≡ true
    → verify pg_space s.reservations ≡ true
    → refusal new_only (schema_state pg_space s) ≡ none
unfolding refusal schema_state verify awaiting
new_only_admitted pg_space s old null new h = rw (old, null, new) (ground (arith, h))

verified-awaiting :
    (pg_space : ℕ → Bool) (rows : List Reservation)
    → verify pg_space rows ≡ true
    → awaiting rows ≡ 0
unfolding verify
verified-awaiting pg_space rows h = ground (arith, h)

one_result :
    {o : Option (ℕ × List Reservation)} {m n : ℕ} {rows qs : List Reservation}
    → o ≡ some (m, rows)
    → o ≡ some (n, qs)
    → qs ≡ rows
one_result h k = cc (h, k)

module _ (pg_space : ℕ → Bool) (pg_space-space : pg_space space ≡ true)
    (pg_space-is_space : (c : ℕ) → is_space c ≡ false → pg_space c ≡ false) where
  -- Where `\s` of PostgreSQL matches the space and nothing that Python does not take for white space:
  -- on a database of revision 0001 whose rows have positive ids and guest names with single spaces only
  -- and parts of at most 60 characters, with no request and no lock meanwhile, the documented procedure
  -- goes through. After 0002 the gate admits dual_write; the backfill fills every row; the gate admits
  -- read_new, and after 0003 new_only; 0004 succeeds. In the end every reservation is read with the
  -- guest name that it had, and nothing else of it changed but its version.
  pub migration-completes :
      (s : Db) (xid : ℕ → ℕ → ℕ) (size : ℕ)
      → s.columns ≡ initial_columns
      → All (λ r. 0 < r.id) s.reservations
      → All IsPlain s.reservations
      → let expanded = upgrade_0002 s in
        (after : List Reservation) × (put_migration pg_space dual_write legacy expanded
          ≡ (ok tt, dual_write))
        × (run_backfill max_passes (λ k m i. false) xid (suc size) 1 0 0 expanded.reservations
            ≡ some (awaiting expanded.reservations, after))
        × (let filled_db = record expanded { reservations = after } in
            let relaxed = upgrade_0003 filled_db in
            (put_migration pg_space read_new dual_write filled_db ≡ (ok tt, read_new))
            × (put_migration pg_space new_only read_new relaxed ≡ (ok tt, new_only))
            × ((upgrade_0004 relaxed).0 ≡ ok tt)
            × AllMigrated s.reservations (upgrade_0004 relaxed).1.reservations)
  unfolding upgrade_0002 upgrade_0003 upgrade_0004
  migration-completes s xid size first ids plain =
      let columns_there : (upgrade_0002 s).columns.guest_name_present ≡ true = rw first refl in
      let (after, run, checked, admitted) =
        backfill-opens_read_new pg_space pg_space-space pg_space-is_space (upgrade_0002 s) xid size
          columns_there refl (stripped-ids s.reservations ids)
          (stripped-IsClean pg_space pg_space-space pg_space-is_space s.reservations plain) in
      let (total, after', run', changed, count) =
        run_backfill-total max_passes (λ k m i. false) xid (suc size) 1 0 0
          (upgrade_0002 s).reservations in
      let filled_all =
        subst (AllFilled (upgrade_0002 s).reservations) (one_result run run') changed in
      let none_left = verified-awaiting pg_space after checked in
      let (migrated, last) = AllMigrated-filled s.reservations after plain filled_all none_left in
      let filled_db = record (upgrade_0002 s) { reservations = after } in
      let contracted = upgrade_0004_succeeds (upgrade_0003 filled_db) none_left last in
      (
        after,
        admitted-enters pg_space dual_write legacy (upgrade_0002 s)
            (dual_write_admitted pg_space s columns_there plain),
        run,
        (
          admitted-enters pg_space read_new dual_write filled_db admitted,
          admitted-enters pg_space new_only read_new (upgrade_0003 filled_db)
              (new_only_admitted pg_space (upgrade_0003 filled_db) columns_there refl refl checked),
          contracted.0,
          subst (AllMigrated s.reservations) (sym contracted.1) migrated,
        ),
      )
