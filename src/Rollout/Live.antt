-- ===== src/Rollout/Live.antt =====
-- The backfill while the API serves requests: requests and batches in any order (docs/MIGRATION.md,
-- steps 2 and 3), in a phase that writes all three columns.
use restaurant_reservation_s.Prelude.{
  ℕ, ◌≤◌, ◌≡◌, refl, ap, Bool, true, false, List, [], ◌∷◌, some, ◌==◌, count_where, All, arith,
  Bool-cases, inl, inr,
}
use restaurant_reservation_s.Http.{ok}
use restaurant_reservation_s.Names.{space, is_space}
use restaurant_reservation_s.Models.Reservation.{Reservation, Changes, NameWrite, apply}
use restaurant_reservation_s.Database.{Db, Engine, find_reservation}
use restaurant_reservation_s.Migration.Phase.{Phase, read_new}
use restaurant_reservation_s.Migration.Schema.{schema_state, refusal, is_allowed, name_mismatch}
use restaurant_reservation_s.Reservations.Requests.{ReservationCreate}
use restaurant_reservation_s.Reservations.Store.{insert_outcome, update_outcome, replace}
use restaurant_reservation_s.Reservations.Service
use restaurant_reservation_s.Reservations.Service.{
  no_names, write_name, new_reservation, update_changes, cancel_changes,
}
use restaurant_reservation_s.Reservations.Routes.{create_reservation, finish_update, finish_cancel}
use restaurant_reservation_s.Reservations.Inversion.{
  stored, insert_outcome-eq-ok, update_outcome-eq-ok, update_row-eq-ok,
}
use restaurant_reservation_s.Reservations.Cases.{
  with_row, with_replaced, create-cases, edit-cases, respond-cases,
}
use restaurant_reservation_s.Reservations.Invariant.{replace-All, find-id}
use restaurant_reservation_s.Reservations.Edits.{find-All}
use restaurant_reservation_s.Backfill.{is_awaiting, awaiting, filled_row, is_target, fill, verify}
use restaurant_reservation_s.Backfill.Passes.{fill-awaiting}
use restaurant_reservation_s.Backfill.Opening.{agrees, waits}
use restaurant_reservation_s.Rollout.Steps.{
  writes_all, IsPlainName, IsPlainOrNone, Live, creates, updates, cancels, fills, elsewhere,
  History, here, next, new_reservation-names,
}
use restaurant_reservation_s.Rollout.Steps

read_new_gate :
    (pg_space : ℕ → Bool) (t : Db)
    → t.columns.guest_name_present ≡ true
    → t.columns.new_columns_present ≡ true
    → count_where (name_mismatch pg_space) t.reservations ≡ 0
    → is_allowed read_new (schema_state pg_space t) ≡ (awaiting t.reservations == 0)
unfolding refusal schema_state awaiting
read_new_gate pg_space t old new matched = rw (old, new, matched) (ground arith)

awaiting-cons :
    (r : Reservation) (rs : List Reservation)
    → is_awaiting r ≡ false
    → awaiting (r ∷ rs) ≡ awaiting rs
unfolding awaiting
awaiting-cons r rs h = ground (arith, h)

awaiting-replace :
    (i : ℕ) (row : Reservation) (rs : List Reservation) {q : Reservation}
    → find_reservation i rs ≡ some q
    → row.id ≡ i
    → (is_awaiting q ≡ false → is_awaiting row ≡ false)
    → awaiting (replace row rs) ≤ awaiting rs
unfolding find_reservation replace awaiting
awaiting-replace i row [] h same better = cc
awaiting-replace i row (r ∷ rs) {q = q} h same better = elim (Bool-cases (r.id == i)) [
  | inl hit ↦ let e : some r ≡ some q = rw hit at h in ground (arith, e, same, better)
  | inr miss ↦ ground (arith, same, awaiting-replace i row rs {q = q} (rw miss at h) same better)
]

module _ (pg_space : ℕ → Bool) (pg_space-space : pg_space space ≡ true)
    (pg_space-is_space : (c : ℕ) → is_space c ≡ false → pg_space c ≡ false) where
  abbrev Clean : Reservation → Type 0
  Clean = Steps.Clean pg_space pg_space-space pg_space-is_space

  abbrev IsBetter : Reservation → Reservation → Type 0
  IsBetter = Steps.IsBetter pg_space pg_space-space pg_space-is_space

  -- What holds all along: every row is clean, and no more of them await their names than at first.
  pub record IsProgress (first : Db) (s : Db) : Type 0 where
    pub clean : All Clean s.reservations
    pub bounded : awaiting s.reservations ≤ awaiting first.reservations
    pub columns : s.columns ≡ first.columns

  inserted-IsProgress :
      (first : Db) (e : Engine) (p : Phase) (user_id : ℕ) (b : ReservationCreate) (s : Db)
      (row : Reservation)
      → writes_all p ≡ true
      → IsPlainName b.guest_name
      → IsProgress first s
      → insert_outcome e s (new_reservation p user_id b) ≡ ok row
      → IsProgress first (with_row s row)
  inserted-IsProgress first e p user_id b s row w plain h k =
      let f = insert_outcome-eq-ok e s (new_reservation p user_id b) k in
      let names = new_reservation-names p user_id b w in
      let good =
        Steps.Clean-split pg_space pg_space-space pg_space-is_space
          (stored e s (new_reservation p user_id b)) b.guest_name
          (ap (λ (w : NameWrite). w.guest_name) names) (ap (λ (w : NameWrite). w.first_name) names)
          (ap (λ (w : NameWrite). w.last_name) names) plain in
      let filled : is_awaiting (stored e s (new_reservation p user_id b)) ≡ false =
        rw (ap (λ (w : NameWrite). w.first_name) names) refl in
      rw f.0 (record {
        clean = (good, h.clean);
        bounded =
            rw (awaiting-cons (stored e s (new_reservation p user_id b)) s.reservations filled)
              h.bounded;
        columns = h.columns;
      })

  updated-IsProgress :
      (first : Db) (e : Engine) (s : Db) (loaded : Reservation) (c : Changes) (row : Reservation)
      → ((q : Reservation) (x : ℕ) → Clean q → IsBetter q (record (apply c q) { version = x }))
      → IsProgress first s
      → update_outcome e s loaded c ≡ ok row
      → IsProgress first (with_replaced s row)
  updated-IsProgress first e s loaded c row better h k =
      let (q, found, _, u) = update_outcome-eq-ok e s loaded c k in
      let f = update_row-eq-ok e s c q u in
      let b =
        better q (e.next_xid s.reservations)
          (find-All Clean loaded.id s.reservations found h.clean) in
      let fewer =
        awaiting-replace loaded.id (record (apply c q) { version = e.next_xid s.reservations })
          s.reservations found (find-id loaded.id s.reservations found) b.no_loss in
      rw f.0 (record {
        clean = replace-All Clean _ s.reservations b.clean h.clean;
        bounded = omega (arith, fewer, h.bounded);
        columns = h.columns;
      })

  filled-Clean : (x : ℕ) (r : Reservation) → Clean r → is_awaiting r ≡ true → Clean (filled_row x r)
  unfolding filled_row
  filled-Clean x r (agrees a m) h = cc
  filled-Clean x r (waits full a g c f) h =
      Steps.Clean-split pg_space pg_space-space pg_space-is_space (filled_row x r) full g
        (rw g refl) (rw g refl) (c, f)

  fill-Clean : (x : ℕ) (b rows : List Reservation) → All Clean rows → All Clean (fill x b rows)
  unfolding fill
  fill-Clean x b [] h = tt
  fill-Clean x b (r ∷ rows) h = elim (Bool-cases (is_target b r)) [
    | inl hit ↦ rw hit (filled-Clean x r h.0 (ground (arith, hit)), fill-Clean x b rows h.1)
    | inr miss ↦ rw miss (h.0, fill-Clean x b rows h.1)
  ]

  elsewhere-IsProgress :
      (first : Db) (s t : Db)
      → IsProgress first s
      → t.reservations ≡ s.reservations
      → t.columns ≡ s.columns
      → IsProgress first t
  elsewhere-IsProgress first s t h same fixed = record {
    clean = rw same h.clean;
    bounded = rw same h.bounded;
    columns = rw fixed h.columns;
  }

  Live-IsProgress : (first : Db) (s t : Db) → IsProgress first s → Live s t → IsProgress first t
  unfolding create_reservation finish_update finish_cancel Service.update_reservation
      Service.cancel_reservation
  Live-IsProgress first s t h (creates e p user b w plain) =
      respond-cases (IsProgress first) p p (Service.create_reservation e p user.id b) s (
        create-cases (IsProgress first) e p user.id b s h
          (λ row. inserted-IsProgress first e p user.id b s row w plain h))
  Live-IsProgress first s t h (updates e p loaded b w plain) =
      respond-cases (IsProgress first) p p (Service.edit e p loaded (update_changes p b)) s (
        edit-cases (IsProgress first) e p loaded (update_changes p b) s h (λ row.
          updated-IsProgress first e s loaded (update_changes p b) row
            (λ q x. Steps.edited-IsBetter pg_space pg_space-space pg_space-is_space p b q x w plain)
            h))
  Live-IsProgress first s t h (cancels e p loaded) =
      respond-cases (IsProgress first) p p (Service.edit e p loaded cancel_changes) s (
        edit-cases (IsProgress first) e p loaded cancel_changes s h (λ row.
          updated-IsProgress first e s loaded cancel_changes row
            (λ q x.
              Steps.unnamed-IsBetter pg_space pg_space-space pg_space-is_space cancel_changes q x
                refl)
            h))
  Live-IsProgress first s t h (fills xid b) =
      let count = fill-awaiting xid b s.reservations in
      record {
        clean = fill-Clean xid b s.reservations h.clean;
        bounded = omega (arith, count, h.bounded);
        columns = h.columns;
      }
  Live-IsProgress first s t h (elsewhere u same columns) =
      elsewhere-IsProgress first s u h same columns

  pub History-IsProgress : (s t : Db) → All Clean s.reservations → History s t → IsProgress s t
  History-IsProgress s t h here = record { clean = h; bounded = omega arith; columns = refl }
  History-IsProgress s t h (next {t = u} r l) = Live-IsProgress s u t (History-IsProgress s u h r) l

  Clean-matches : (r : Reservation) → Clean r → name_mismatch pg_space r ≡ false
  unfolding name_mismatch
  Clean-matches r (agrees a m) = m
  Clean-matches r (waits full a g c f) = ground (arith, a)

  Clean-no_mismatch :
      (rows : List Reservation) → All Clean rows → count_where (name_mismatch pg_space) rows ≡ 0
  Clean-no_mismatch [] h = refl
  Clean-no_mismatch (r ∷ rows) h = ground (arith, Clean-matches r h.0, Clean-no_mismatch rows h.1)

  -- Where `\s` of PostgreSQL matches the space and nothing that Python does not take for white space,
  -- start from a table with all three name columns in which each row either has its two names, in
  -- agreement with guest_name, or awaits them with a guest_name of single spaces and parts of at most
  -- 60 characters. Then after any requests and backfill batches, in any order, where the phases write
  -- all three columns and the names sent have single spaces and parts of at most 60 characters: no more
  -- rows await their names than at first; and the verification passes, and the gate admits read_new,
  -- exactly when no row awaits them.
  pub live-opens_read_new :
      (s t : Db)
      → All Clean s.reservations
      → History s t
      → s.columns.guest_name_present ≡ true
      → s.columns.new_columns_present ≡ true
      → (awaiting t.reservations ≤ awaiting s.reservations)
        × (verify pg_space t.reservations ≡ (awaiting t.reservations == 0))
        × (is_allowed read_new (schema_state pg_space t) ≡ (awaiting t.reservations == 0))
  unfolding verify
  live-opens_read_new s t clean history old new =
      let h = History-IsProgress s t clean history in
      let matched = Clean-no_mismatch t.reservations h.clean in
      (
        h.bounded,
        ground (arith, matched),
        read_new_gate pg_space t (rw h.columns old) (rw h.columns new) matched,
      )
