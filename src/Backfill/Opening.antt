-- ===== src/Backfill/Opening.antt =====
-- The repeated passes, and the gate that they open (scripts/backfill_names.py, run_backfill and
-- verify, and app/migration.py, refusal).
use restaurant_reservation_s.Prelude.{
  ℕ, zero, suc, ◌+◌, ◌<◌, ◌≡◌, refl, Bool, true, false, ◌||◌, List, [], ◌∷◌, none, some, ◌==◌,
  count_where, All, arith, Bool-cases, inl, inr,
}
use restaurant_reservation_s.Names.{Text, space, is_space, words, join}
use restaurant_reservation_s.Names.Split.{NameFits}
use restaurant_reservation_s.Names.Canonical.{name_mismatch-split}
use restaurant_reservation_s.Models.Reservation.{Reservation}
use restaurant_reservation_s.Database.{Db}
use restaurant_reservation_s.Migration.Phase.{read_new}
use restaurant_reservation_s.Migration.Schema.{schema_state, refusal, name_mismatch, is_null}
use restaurant_reservation_s.Backfill.{
  is_awaiting, awaiting, filled_row, run_backfill, max_passes, verify,
}
use restaurant_reservation_s.Backfill.Passes.{
  Filled, same, filled, AllFilled, AllFilled-refl, AllFilled-trans, run_pass-total,
}
use restaurant_reservation_s.Backfill.Unlocked.{IsBehind, run_pass-unlocked}

-- The backfill ends whatever rows are locked meanwhile. It changes rows only by filling the two names
-- of rows that await them, from their guest_name, and returns how many it filled.
pub run_backfill-total :
    (passes : ℕ) (locked : ℕ → ℕ → ℕ → Bool) (xid : ℕ → ℕ → ℕ) (size n start_after done : ℕ)
    (rows : List Reservation)
    → (total : ℕ) × (after : List Reservation) × (run_backfill passes locked xid size n start_after
          done rows
        ≡ some (total, after))
      × AllFilled rows after
      × (total + awaiting after ≡ done + awaiting rows)
unfolding run_backfill
run_backfill-total zero locked xid size n start_after done rows =
    (done, rows, refl, AllFilled-refl rows, refl)
run_backfill-total (suc passes) locked xid size n start_after done rows =
    let (part, after, result, changed, count) =
      run_pass-total (suc (awaiting rows)) (locked n) (xid n) size 0 start_after 0 rows
        (omega arith) in
    elim (Bool-cases (awaiting after == 0 || part == 0)) [
      | inl stop ↦
          (done + part, after, rw (result, stop, run_backfill) refl, changed, omega (arith, count))
      | inr more ↦
          let (total, last, result', changed', count') =
            run_backfill-total passes locked xid size (suc n) 0 (done + part) after in
          (
            total,
            last,
            rw (result, more, run_backfill) result',
            AllFilled-trans rows after last changed changed',
            omega (arith, count, count'),
          )
    ]

-- With no row locked, the first pass from before the first id fills every row.
run_backfill-unlocked :
    (passes : ℕ) (xid : ℕ → ℕ → ℕ) (size n start_after done : ℕ) (rows : List Reservation)
    {total : ℕ} {after : List Reservation}
    → IsBehind start_after rows
    → run_backfill (suc passes) (λ k m i. false) xid (suc size) n start_after done rows
      ≡ some (total, after)
    → awaiting after ≡ 0
unfolding run_backfill
run_backfill-unlocked passes xid size n start_after done rows {total} {after} behind h =
    let (part, first, result, changed, count) =
      run_pass-total (suc (awaiting rows)) (λ m i. false) (xid n) (suc size) 0 start_after 0 rows
        (omega arith) in
    let none_left =
      run_pass-unlocked (suc (awaiting rows)) (xid n) size 0 start_after 0 rows behind result in
    let e : some (done + part, first) ≡ some (total, after) =
      rw (result, none_left, run_backfill) at h in
    ground (arith, none_left, e)

module _ (pg_space : ℕ → Bool) (pg_space-space : pg_space space ≡ true)
    (pg_space-is_space : (c : ℕ) → is_space c ≡ false → pg_space c ≡ false) where
  -- The row has its two names and they agree with guest_name, or it awaits them and its guest_name has
  -- single spaces only and parts that fit.
  pub data IsClean (r : Reservation) : Type 0 where
    agrees : is_awaiting r ≡ false → name_mismatch pg_space r ≡ false → IsClean r
    waits :
        (full : Text)
        → is_awaiting r ≡ true
        → r.guest_name ≡ some full
        → full ≡ join (words full)
        → NameFits (words full)
        → IsClean r

  Filled-matches :
      (r q : Reservation)
      → IsClean r
      → Filled r q
      → is_awaiting q ≡ false
      → name_mismatch pg_space q ≡ false
  unfolding filled_row
  Filled-matches r q (agrees a m) same k = m
  Filled-matches r q (waits full a g c f) same k = cc
  Filled-matches r q (agrees a m) (filled x b) k = cc
  Filled-matches r q (waits full a g c f) (filled x b) k =
      name_mismatch-split pg_space pg_space-space pg_space-is_space (filled_row x r) full g (rw g)
        (rw g) c f

  no_mismatch :
      (rows after : List Reservation)
      → All IsClean rows
      → AllFilled rows after
      → awaiting after ≡ 0
      → count_where (name_mismatch pg_space) after ≡ 0
  unfolding awaiting
  no_mismatch [] [] c f h = refl
  no_mismatch [] (q ∷ after) c f h = elim f [ ]
  no_mismatch (r ∷ rows) [] c f h = elim f [ ]
  no_mismatch (r ∷ rows) (q ∷ after) c f h =
      ground (arith, Filled-matches r q c.0 f.0, no_mismatch rows after c.1 f.1)

  IsBehind-start : (rows : List Reservation) → All (λ r. 0 < r.id) rows → IsBehind 0 rows
  IsBehind-start [] h = tt
  IsBehind-start (r ∷ rows) h = (inr h.0, IsBehind-start rows h.1)

  -- Where `\s` of PostgreSQL matches the space and nothing that Python does not take for white space:
  -- when both names' columns and guest_name are there, ids are positive and every row is clean (its
  -- names agree, or it awaits them and its guest_name has single spaces only and parts of at most 60
  -- characters), a backfill that meets no locked row fills every row that awaited its names, its
  -- verification passes, and the gate then admits the phase read_new.
  pub backfill-opens_read_new :
      (s : Db) (xid : ℕ → ℕ → ℕ) (size : ℕ)
      → s.columns.guest_name_present ≡ true
      → s.columns.new_columns_present ≡ true
      → All (λ r. 0 < r.id) s.reservations
      → All IsClean s.reservations
      → (after : List Reservation) × (run_backfill max_passes
            (λ k m i. false)
            xid
            (suc size)
            1
            0
            0
            s.reservations
          ≡ some (awaiting s.reservations, after))
        × (verify pg_space after ≡ true)
        × (refusal read_new (schema_state pg_space (record s { reservations = after })) ≡ none)
  unfolding verify refusal schema_state
  backfill-opens_read_new s xid size old new ids clean =
      let (total, after, result, changed, count) =
        run_backfill-total max_passes (λ k m i. false) xid (suc size) 1 0 0 s.reservations in
      let none_left =
        run_backfill-unlocked 4 xid size 1 0 0 s.reservations (IsBehind-start s.reservations ids)
          result in
      let matched = no_mismatch s.reservations after clean changed none_left in
      let all_filled : total ≡ awaiting s.reservations = omega (arith, count, none_left) in
      let no_nulls : count_where (λ r. is_null r.first_name) after ≡ 0 =
        unfold awaiting in none_left in
      (
        after,
        rw (← all_filled) result,
        rw (none_left, matched) refl,
        rw (old, new, no_nulls, matched) refl,
      )
