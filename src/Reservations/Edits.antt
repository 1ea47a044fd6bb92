-- ===== src/Reservations/Edits.antt =====
-- Optimistic locking: the xmin check of app/models/reservation.py and `_commit_versioned` of
-- app/services/reservations.py, when other requests commit between the read and the write.
use restaurant_reservation_s.Prelude.{
  ℕ, ◌<◌, ◌≡◌, refl, true, List, [], ◌∷◌, some, ◌==◌, All, arith, if◌then◌else◌, Bool-cases,
  ==-refl, inl, inr, ◌⊎◌,
}
use restaurant_reservation_s.Http.{
  ok, raised, http_exception, stale_data_error, changed_concurrently,
}
use restaurant_reservation_s.Models.Reservation.{Reservation, Changes}
use restaurant_reservation_s.Database.{Db, Engine, find_reservation}
use restaurant_reservation_s.Migration.Phase.{Phase}
use restaurant_reservation_s.Reservations.Requests.{ReservationUpdate}
use restaurant_reservation_s.Reservations.Store.{replace, insert_outcome, update_outcome}
use restaurant_reservation_s.Reservations.Service.{update_reservation, update_changes}
use restaurant_reservation_s.Reservations.Inversion.{
  insert_outcome-eq-ok, update_outcome-eq-ok, update_row-eq-ok,
}
use restaurant_reservation_s.Reservations.Cases.{edit-raised, with_row, with_replaced}
use restaurant_reservation_s.Reservations.Invariant.{Reach, here, next, Step-keeps, find-id}

pub find-All :
    (P : Reservation → Type 0) (i : ℕ) (rs : List Reservation) {q : Reservation}
    → find_reservation i rs ≡ some q
    → All P rs
    → P q
unfolding find_reservation
find-All P i [] h a = cc
find-All P i (r ∷ rs) {q = q} h a = elim (Bool-cases (r.id == i)) [
  | inl hit ↦ let e : some r ≡ some q = rw hit at h in ground (arith, a.0)
  | inr miss ↦ find-All P i rs {q = q} (rw miss at h) a.1
]

pub find-replace :
    (i : ℕ) (row : Reservation) (rs : List Reservation) {q : Reservation}
    → find_reservation i rs ≡ some q
    → find_reservation i (replace row rs) ≡ (if row.id == i then some row else some q)
unfolding find_reservation replace
find-replace i row [] h = cc
find-replace i row (r ∷ rs) {q = q} h = ground (arith, find-replace i row rs {q = q})

-- The row with that id is still the one that was read, or it has a later version.
abbrev pub Kept : Reservation → Db → Type 0
Kept r t =
    (q : Reservation) × (find_reservation r.id t.reservations ≡ some q)
    × ((q ≡ r) ⊎ (r.version < q.version))

inserted-Kept :
    (r : Reservation) (e : Engine) (s : Db) (new row : Reservation)
    → Kept r s
    → insert_outcome e s new ≡ ok row
    → Kept r (with_row s row)
unfolding find_reservation
inserted-Kept r e s new row (q, found, old) h =
    let f = insert_outcome-eq-ok e s new h in
    let below =
      find-All (λ x. x.id < e.next_reservation_id s.reservations) r.id s.reservations found
        (e.fresh_reservation_id s.reservations) in
    let same = find-id r.id s.reservations found in (q, rw f.0 (ground arith), old)

updated-Kept :
    (r : Reservation) (e : Engine) (s : Db) (l : Reservation) (c : Changes) (row : Reservation)
    → Kept r s
    → update_outcome e s l c ≡ ok row
    → Kept r (with_replaced s row)
updated-Kept r e s l c row (q, found, old) h =
    let (p, pfound, _, u) = update_outcome-eq-ok e s l c h in
    let f = update_row-eq-ok e s c p u in
    let newer =
      find-All (λ x. x.version < e.next_xid s.reservations) r.id s.reservations found
        (e.fresh_xid s.reservations) in
    elim (Bool-cases (row.id == r.id)) [
      | inl hit ↦
          (row, rw (find-replace r.id row s.reservations found, hit), inr (ground (arith, f.0)))
      | inr miss ↦ (q, rw (find-replace r.id row s.reservations found, miss), old)
    ]

pub Reach-Kept :
    (r : Reservation) (s t : Db)
    → find_reservation r.id s.reservations ≡ some r
    → Reach s t
    → Kept r t
Reach-Kept r s t found here = (r, found, inl refl)
Reach-Kept r s t found (next {t = u} path st) =
    Step-keeps (Kept r) (inserted-Kept r) (updated-Kept r) (λ v w k same _. rw (← same) at k) u t
      (Reach-Kept r s u found path) st

-- An UPDATE for a row that has a later version matches nothing.
stale_update :
    (e : Engine) (t : Db) (r : Reservation) (c : Changes) (q : Reservation)
    → find_reservation r.id t.reservations ≡ some q
    → r.version < q.version
    → update_outcome e t r c ≡ raised stale_data_error
unfolding update_outcome
stale_update e t r c q found later = ground arith

-- No lost update: whatever requests commit between the read and the write of an edit that sends an
-- UPDATE, either the row is still the one that was read, or the edit changes nothing and is answered
-- 409.
pub update_reservation-no_lost_update :
    (e : Engine) (p : Phase) (loaded : Reservation) (b : ReservationUpdate) (s t : Db)
    → find_reservation loaded.id s.reservations ≡ some loaded
    → Reach s t
    → e.emits loaded (update_changes p b) ≡ true
    → (find_reservation loaded.id t.reservations ≡ some loaded)
      ⊎ (update_reservation e p loaded b t ≡ (raised (http_exception 409 changed_concurrently), t))
unfolding update_reservation
update_reservation-no_lost_update e p loaded b s t found path sent =
    let (q, still, old) = Reach-Kept loaded s t found path in
    elim old [
      | inl same ↦ inl (rw same at still)
      | inr later ↦ inr (
          edit-raised e p loaded (update_changes p b) t stale_data_error sent
            (stale_update e t loaded (update_changes p b) q still later))
    ]

-- Of two edits that read the same version, the one that commits second is refused.
pub update_outcome-second_stale :
    (e d : Engine) (s : Db) (loaded : Reservation) (c k : Changes) {row : Reservation}
    → update_outcome e s loaded c ≡ ok row
    → update_outcome d (with_replaced s row) loaded k ≡ raised stale_data_error
update_outcome-second_stale e d s loaded c k {row} h =
    let (q, found, version, u) = update_outcome-eq-ok e s loaded c h in
    let f = update_row-eq-ok e s c q u in
    let newer =
      find-All (λ x. x.version < e.next_xid s.reservations) loaded.id s.reservations found
        (e.fresh_xid s.reservations) in
    let same = find-id loaded.id s.reservations found in
    let hit : (row.id == loaded.id) ≡ true = ground (arith, f.0, ==-refl q.id) in
    stale_update d (with_replaced s row) loaded k row
      (rw (find-replace loaded.id row s.reservations found, hit)) (ground (arith, f.0))
