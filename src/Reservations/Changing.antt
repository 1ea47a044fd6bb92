-- ===== src/Reservations/Changing.antt =====
-- A booking that can be changed, and its cancellation (app/services/reservations.py,
-- cancel_reservation) as the route answers it.
use restaurant_reservation_s.Prelude.{
  ℕ, ◌≡◌, refl, ap, sym, subst, ◌∙◌, true, false, [], Option, none, some, arith,
}
use restaurant_reservation_s.Http.{Outcome, ok, raised}
use restaurant_reservation_s.Names.{Text}
use restaurant_reservation_s.Models.User.{User}
use restaurant_reservation_s.Models.Reservation.{Reservation, Changes}
use restaurant_reservation_s.Database.{Db, Engine, find_reservation}
use restaurant_reservation_s.Action.Effects.{>>=-ok}
use restaurant_reservation_s.Migration.Phase.{Phase, legacy, dual_write, read_new, new_only}
use restaurant_reservation_s.Migration.Fit.{Fits}
use restaurant_reservation_s.Reservations.Store.{row_violations, commit, select_reservation}
use restaurant_reservation_s.Reservations.Etag.{etag}
use restaurant_reservation_s.Reservations.Service
use restaurant_reservation_s.Reservations.Service.{translate_commit, update_changes, cancel_changes}
use restaurant_reservation_s.Reservations.Routes.{
  out, to_out, built, read_name, respond, finish_cancel,
}
use restaurant_reservation_s.Reservations.Cases.{with_replaced, catching-ok}
use restaurant_reservation_s.Reservations.Invariant.{IsValid, find-id}
use restaurant_reservation_s.Reservations.Success.{edited_row, cancel_reservation-stored}
use restaurant_reservation_s.Reservations.Readable.{responded}

-- A booking that can be changed: it is as the table wants it, and can be read.
pub record MayChange (e : Engine) (p : Phase) (user : User) (i : ℕ) (s : Db) (row : Reservation)
    (name : Text) : Type 0 where
  pub fits : Fits p s.columns
  pub valid : IsValid s
  pub found : find_reservation i s.reservations ≡ some row
  pub fine : row_violations s.columns row ≡ []
  pub readable : to_out p p row ≡ ok (out row name)

built-name :
    (row : Reservation) (name : Text) (o : Outcome (Option Text))
    → built row o ≡ ok (out row name)
    → o ≡ ok (some name)
built-name row name (ok (some m)) h = cc h
built-name row name (ok none) h = cc
built-name row name (raised x) h = cc

read_name-unnamed :
    (e : Engine) (p : Phase) (s : Db) (row : Reservation) (c : Changes)
    → c.names ≡ Service.no_names
    → read_name p p (edited_row e s c row) ≡ read_name p p row
unfolding read_name
read_name-unnamed e legacy s row c h = rw h refl
read_name-unnamed e dual_write s row c h = rw h refl
read_name-unnamed e read_new s row c h = rw h refl
read_name-unnamed e new_only s row c h = rw h refl

-- Changes that leave the names alone leave the row as readable as it was.
pub to_out-unnamed :
    (e : Engine) (p : Phase) (s : Db) (row : Reservation) (c : Changes) (name : Text)
    → c.names ≡ Service.no_names
    → to_out p p row ≡ ok (out row name)
    → to_out p p (edited_row e s c row) ≡ ok (out (edited_row e s c row) name)
unfolding to_out
to_out-unnamed e p s row c name h k =
    ap (built (edited_row e s c row))
      (read_name-unnamed e p s row c h ∙ built-name row name (read_name p p row) k)

module _ {e : Engine} {p : Phase} {user : User} {i : ℕ} {s : Db} {row : Reservation} {name : Text}
    (m : MayChange e p user i s row name) where
  pub at_id : find_reservation row.id s.reservations ≡ some row
  at_id =
      subst (λ j. find_reservation j s.reservations ≡ some row)
        (sym (find-id i s.reservations m.found)) m.found

  -- The row, cancelled.
  abbrev pub dropped : Reservation
  dropped = edited_row e s cancel_changes row

  pub dropped-written :
      e.emits row cancel_changes ≡ true
      → finish_cancel e p row s ≡ (ok (out dropped name, etag dropped), with_replaced s dropped)
  unfolding finish_cancel
  dropped-written sent =
      >>=-ok (Service.cancel_reservation e p row) (respond p p) s (with_replaced s dropped) dropped
        (cancel_reservation-stored e p s row m.fits m.valid at_id m.fine sent)
      ∙ responded p dropped name (with_replaced s dropped)
          (to_out-unnamed e p s row cancel_changes name refl m.readable)

  -- A cancellation that changes nothing, and so sends no UPDATE.
  reloaded : Service.reload p row.id s ≡ (ok row, s)
  unfolding Service.reload select_reservation
  reloaded = let reads = m.fits.reads in ground (arith, reads, at_id)

  kept : e.emits row cancel_changes ≡ false → Service.cancel_reservation e p row s ≡ (ok row, s)
  unfolding Service.cancel_reservation Service.edit Service.commit_versioned
  kept unsent =
      >>=-ok (Service.commit_versioned e row cancel_changes)
        (λ (_ : Unit {0}). Service.reload p row.id) s s tt
        (catching-ok translate_commit (commit e row cancel_changes) s s tt
          (unfold commit in rw unsent refl))
      ∙ reloaded

  pub kept-written :
      e.emits row cancel_changes ≡ false
      → finish_cancel e p row s ≡ (ok (out row name, etag row), s)
  unfolding finish_cancel
  kept-written unsent =
      >>=-ok (Service.cancel_reservation e p row) (respond p p) s s row (kept unsent)
      ∙ responded p row name s m.readable
