-- ===== src/Rollout/Finish.antt =====
-- The backfill finishes after live traffic, and the gate of read_new then stays open (docs/MIGRATION.md,
-- steps 2 and 3).
use restaurant_reservation_s.Prelude.{
  ℕ, suc, ◌<◌, ◌≡◌, Bool, true, false, List, [], ◌∷◌, some, count_where, All, arith,
}
use restaurant_reservation_s.Names.{space, is_space}
use restaurant_reservation_s.Models.Reservation.{Reservation}
use restaurant_reservation_s.Database.{Db}
use restaurant_reservation_s.Migration.Phase.{read_new}
use restaurant_reservation_s.Migration.Schema.{schema_state, is_allowed, name_mismatch}
use restaurant_reservation_s.Backfill.{awaiting, run_backfill, max_passes, verify}
use restaurant_reservation_s.Backfill.Opening.{IsClean, agrees, backfill-opens_read_new}
use restaurant_reservation_s.Rollout.Steps.{History}
use restaurant_reservation_s.Rollout.Live.{History-IsProgress, live-opens_read_new}

module _ (pg_space : ℕ → Bool) (pg_space-space : pg_space space ≡ true)
    (pg_space-is_space : (c : ℕ) → is_space c ≡ false → pg_space c ≡ false) where
  abbrev Clean : Reservation → Type 0
  Clean = IsClean pg_space pg_space-space pg_space-is_space

  -- Rows that pass the verification are clean.
  verified-Clean :
      (rows : List Reservation)
      → awaiting rows ≡ 0
      → count_where (name_mismatch pg_space) rows ≡ 0
      → All Clean rows
  unfolding awaiting
  verified-Clean [] h k = tt
  verified-Clean (r ∷ rows) h k = (
    agrees (ground (arith, h)) (ground (arith, k)),
    verified-Clean rows (ground (arith, h)) (ground (arith, k)),
  )

  -- Where `\s` of PostgreSQL matches the space and nothing that Python does not take for white space,
  -- start from a table with all three name columns in which each row either has its two names, in
  -- agreement with guest_name, or awaits them with a guest_name of single spaces and parts of at most
  -- 60 characters. Let any requests and batches come, in any order, in phases that write all three
  -- columns and with names of single spaces and parts of at most 60 characters. Then, when ids are
  -- positive, a run of the backfill that meets no locked row, with no other commit meanwhile, fills
  -- every row that awaits its names; and from then on, whatever such requests and batches follow, the
  -- verification passes and the gate admits read_new.
  pub live-backfill_completes :
      (s t : Db) (xid : ℕ → ℕ → ℕ) (size : ℕ)
      → All Clean s.reservations
      → History s t
      → s.columns.guest_name_present ≡ true
      → s.columns.new_columns_present ≡ true
      → All (λ r. 0 < r.id) t.reservations
      → (after : List Reservation) × (run_backfill max_passes
            (λ k m i. false)
            xid
            (suc size)
            1
            0
            0
            t.reservations
          ≡ some (awaiting t.reservations, after))
        × ((u : Db)
            → History (record t { reservations = after }) u
            → (verify pg_space u.reservations ≡ true)
              × (is_allowed read_new (schema_state pg_space u) ≡ true))
  live-backfill_completes s t xid size clean history old new ids =
      let h = History-IsProgress pg_space pg_space-space pg_space-is_space s t clean history in
      let (after, result, passes, _) =
        backfill-opens_read_new pg_space pg_space-space pg_space-is_space t xid size
          (rw h.columns old) (rw h.columns new) ids h.clean in
      let none_left : awaiting after ≡ 0 = unfold verify in ground (arith, passes) in
      let matched : count_where (name_mismatch pg_space) after ≡ 0 =
        unfold verify in ground (arith, passes) in
      (
        after,
        result,
        λ u later.
            let (fewer, verified, allowed) =
              live-opens_read_new pg_space pg_space-space pg_space-is_space
                (record t { reservations = after }) u (verified-Clean after none_left matched) later
                (rw h.columns old) (rw h.columns new) in
            let still : awaiting u.reservations ≡ 0 = omega (arith, fewer, none_left) in
            (rw still at verified, rw still at allowed),
      )
