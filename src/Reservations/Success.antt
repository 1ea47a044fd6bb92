-- ===== src/Reservations/Success.antt =====
-- When an edit goes through: update_reservation and cancel_reservation of
-- app/services/reservations.py on the current version of a row.
use restaurant_reservation_s.Prelude.{
  ◌∙◌, ℕ, ◌≡◌, refl, true, false, List, [], ◌∷◌, Option, none, some, ◌==◌, any, arith, Bool-cases,
  ==→eq, ==-refl, inl, inr, ◌⊎◌,
}
use restaurant_reservation_s.Http.{ok}
use restaurant_reservation_s.Names.{Text}
use restaurant_reservation_s.Models.Reservation.{
  Reservation, Changes, apply, conflicts, cancelled, party_check, time_order_check,
}
use restaurant_reservation_s.Database.{Db, Columns, Engine, find_reservation}
use restaurant_reservation_s.Action.Effects.{>>=-ok}
use restaurant_reservation_s.Migration.Phase.{Phase}
use restaurant_reservation_s.Migration.Fit.{Fits}
use restaurant_reservation_s.Reservations.Requests.{ReservationUpdate, validate_update, party_fits}
use restaurant_reservation_s.Reservations.Store.{
  others, row_violations, booking_violations, writes_missing, update_row, update_outcome, commit,
  select_reservation, replace,
}
use restaurant_reservation_s.Reservations.Service.{
  write_name, reload, edit, commit_versioned, update_changes, update_reservation, cancel_changes,
  cancel_reservation, translate_commit,
}
use restaurant_reservation_s.Reservations.Cases.{with_replaced, catching-ok}
use restaurant_reservation_s.Reservations.Booking.{
  NoDoubleBooking, HasUniqueIds, conflicts_comm, any_of_IsFree, others-fresh,
}
use restaurant_reservation_s.Reservations.Invariant.{IsValid}
use restaurant_reservation_s.Reservations.Edits.{find-All, find-replace}

-- A stored row is free among the others.
others-free :
    (i : ℕ) (rs : List Reservation) {q : Reservation}
    → find_reservation i rs ≡ some q
    → HasUniqueIds rs
    → NoDoubleBooking rs
    → any (conflicts q) (others i rs) ≡ false
unfolding find_reservation others
others-free i [] h u n = cc
others-free i (r ∷ rs) {q} h u n = elim (Bool-cases (r.id == i)) [
  | inl hit ↦
      let e : some r ≡ some q = rw hit at h in
      let rest = others-fresh i rs (rw (==→eq r.id i hit) at u.0) in
      rw (hit, rest) (ground (arith, any_of_IsFree r rs n.0, e))
  | inr miss ↦
      let h' = rw miss at h in
      let c = find-All (λ x. conflicts r x ≡ false) i rs {q = q} h' n.0 in
      rw (miss, conflicts_comm q r, c) (others-free i rs h' u.1 n.1)
]

-- The changes touch no row's place in the plan, unless they take it out.
abbrev IsHarmless : Changes → Type 0
IsHarmless c = (c.status ≡ none) ⊎ (c.status ≡ some cancelled)

harmless-free :
    (c : Changes) (q : Reservation) (rs : List Reservation)
    → IsHarmless c
    → any (conflicts q) rs ≡ false
    → any (conflicts (apply c q)) rs ≡ false
unfolding conflicts
harmless-free c q [] h f = refl
harmless-free c q (r ∷ rs) (inl none_set) f =
    let g = harmless-free c q rs (inl none_set) in ground (arith, g, none_set)
harmless-free c q (r ∷ rs) (inr out) f =
    let g = harmless-free c q rs (inr out) in ground (arith, g, out)

abbrev KeepsParty : Changes → Type 0
KeepsParty c = (c.party_size ≡ none) ⊎ ((n : ℕ) × (c.party_size ≡ some n) × (party_fits n ≡ true))

applied-row_violations :
    (cs : Columns) (c : Changes) (q : Reservation)
    → KeepsParty c
    → row_violations cs q ≡ []
    → row_violations cs (apply c q) ≡ []
unfolding row_violations party_check time_order_check
applied-row_violations cs c q (inl none_set) h = ground arith
applied-row_violations cs c q (inr (n, set, fits)) h = ground arith

Fits-writes_name :
    (p : Phase) (cs : Columns) (name : Text)
    → Fits p cs
    → writes_missing cs (write_name p name) ≡ false
unfolding writes_missing write_name
Fits-writes_name p cs name f = ground arith

-- The row that an edit leaves.
abbrev pub edited_row : Engine → Db → Changes → Reservation → Reservation
edited_row e s c q = record (apply c q) { version = e.next_xid s.reservations }

module _ (e : Engine) (p : Phase) (s : Db) (loaded : Reservation) (c : Changes) where
  update_current :
      find_reservation loaded.id s.reservations ≡ some loaded
      → IsValid s
      → row_violations s.columns loaded ≡ []
      → writes_missing s.columns c.names ≡ false
      → IsHarmless c
      → KeepsParty c
      → update_outcome e s loaded c ≡ ok (edited_row e s c loaded)
  unfolding update_outcome update_row booking_violations
  update_current found v sound there harmless party =
      let fine = applied-row_violations s.columns c loaded party sound in
      let free =
        harmless-free c loaded (others loaded.id s.reservations) harmless
          (others-free loaded.id s.reservations {q = loaded} found v.unique v.separate) in
      ground (arith, found, ==-refl loaded.version, there, fine, free)

  commit_current :
      e.emits loaded c ≡ true
      → update_outcome e s loaded c ≡ ok (edited_row e s c loaded)
      → commit e loaded c s ≡ (ok tt, with_replaced s (edited_row e s c loaded))
  unfolding commit
  commit_current sent h = ground (arith, sent, h)

  reload_current :
      Fits p s.columns
      → find_reservation loaded.id s.reservations ≡ some loaded
      → reload p loaded.id (with_replaced s (edited_row e s c loaded))
        ≡ (ok (edited_row e s c loaded), with_replaced s (edited_row e s c loaded))
  unfolding reload select_reservation
  reload_current f found =
      let again : find_reservation loaded.id (replace (edited_row e s c loaded) s.reservations)
          ≡ some (edited_row e s c loaded) =
        rw
          (find-replace loaded.id (edited_row e s c loaded) s.reservations found, ==-refl loaded.id)
          refl in
      ground (arith, again, f.reads)

  edit_current :
      Fits p s.columns
      → find_reservation loaded.id s.reservations ≡ some loaded
      → e.emits loaded c ≡ true
      → update_outcome e s loaded c ≡ ok (edited_row e s c loaded)
      → edit e p loaded c s
        ≡ (ok (edited_row e s c loaded), with_replaced s (edited_row e s c loaded))
  unfolding edit commit_versioned
  edit_current f found sent h =
      >>=-ok (commit_versioned e loaded c) (λ (_ : Unit {0}). reload p loaded.id) s
        (with_replaced s (edited_row e s c loaded)) tt
        (catching-ok translate_commit (commit e loaded c) s
          (with_replaced s (edited_row e s c loaded)) tt (commit_current sent h))
      ∙ reload_current f found

-- In a phase that fits the schema, on the current version of a stored row of a valid database, a valid
-- PATCH that leaves the status alone and sends an UPDATE stores the changed row under a new version
-- and returns it.
pub update_reservation-stored :
    (e : Engine) (p : Phase) (s : Db) (loaded : Reservation) (b : ReservationUpdate)
    → Fits p s.columns
    → IsValid s
    → find_reservation loaded.id s.reservations ≡ some loaded
    → row_violations s.columns loaded ≡ []
    → validate_update b ≡ true
    → b.status ≡ none
    → e.emits loaded (update_changes p b) ≡ true
    → update_reservation e p loaded b s ≡ (
      ok (edited_row e s (update_changes p b) loaded),
      with_replaced s (edited_row e s (update_changes p b) loaded),
    )
unfolding update_reservation
update_reservation-stored e p s loaded b f v found sound valid no_status sent =
    edit_current e p s loaded (update_changes p b) f found sent (
      update_current e p s loaded (update_changes p b) found v sound (names_there b.guest_name refl)
        (inl (unfold update_changes in no_status)) (party b.party_size refl))
  where
    names_there :
        (o : Option Text)
        → b.guest_name ≡ o
        → writes_missing s.columns (update_changes p b).names ≡ false
    names_there none h = unfold update_changes writes_missing in rw h refl
    names_there (some name) h = unfold update_changes in rw h (Fits-writes_name p s.columns name f)

    party : (o : Option ℕ) → b.party_size ≡ o → KeepsParty (update_changes p b)
    party none h = inl (unfold update_changes in h)
    party (some n) h =
        inr (n, unfold update_changes in h, unfold validate_update in ground (arith, valid, h))

-- In a phase that fits the schema, cancelling the current version of a stored row of a valid database
-- stores it as cancelled under a new version and returns it, when an UPDATE is sent.
pub cancel_reservation-stored :
    (e : Engine) (p : Phase) (s : Db) (loaded : Reservation)
    → Fits p s.columns
    → IsValid s
    → find_reservation loaded.id s.reservations ≡ some loaded
    → row_violations s.columns loaded ≡ []
    → e.emits loaded cancel_changes ≡ true
    → cancel_reservation e p loaded s ≡ (
      ok (edited_row e s cancel_changes loaded),
      with_replaced s (edited_row e s cancel_changes loaded),
    )
unfolding cancel_reservation
cancel_reservation-stored e p s loaded f v found sound sent =
    edit_current e p s loaded cancel_changes f found sent (
      update_current e p s loaded cancel_changes found v sound (unfold writes_missing in refl)
        (inr refl) (inl refl))
