-- ===== src/Traffic/Answers.antt =====
-- What the service answers to a rename that it can make (app/routers/reservations.py, for the rounds of
-- scripts/traffic.py, Steady.rename).
use restaurant_reservation_s.Prelude.{
  Bool, ℕ, suc, ◌≡◌, refl, ap, sym, subst, ap, ◌∙◌, true, false, List, [], ◌∷◌, none, some, ◌==◌,
  arith, if◌then◌else◌,
}
use restaurant_reservation_s.Http.{
  Outcome, ok, raised, http_exception, reservation_changed, status_code,
}
use restaurant_reservation_s.Names.{Text, words, join, rebuilt_name, split_guest_name}
use restaurant_reservation_s.Names.Split.{NameFits, rebuilt_name-split}
use restaurant_reservation_s.Models.User.{User}
use restaurant_reservation_s.Models.Reservation.{Reservation}
use restaurant_reservation_s.Database.{Db, Engine, find_reservation}
use restaurant_reservation_s.Action.Effects.{>>=-ok, >>=-raised}
use restaurant_reservation_s.Migration.Phase.{Phase, legacy, dual_write, read_new, new_only}
use restaurant_reservation_s.Migration.Fit.{Fits}
use restaurant_reservation_s.Reservations.Requests.{name_fits, validate_update}
use restaurant_reservation_s.Reservations.Store.{row_violations}
use restaurant_reservation_s.Reservations.Etag.{etag, check_if_match}
use restaurant_reservation_s.Reservations.Tags.{check_if_match-etag}
use restaurant_reservation_s.Reservations.Service
use restaurant_reservation_s.Reservations.Service.{update_changes, write_name}
use restaurant_reservation_s.Reservations.Routes.{
  Response, out, to_out, respond, load_owned, begin_edit, finish_update, update_reservation,
  get_reservation,
}
use restaurant_reservation_s.Reservations.Race.{load_owned-own}
use restaurant_reservation_s.Reservations.Readable.{responded}
use restaurant_reservation_s.Reservations.Cases.{with_replaced}
use restaurant_reservation_s.Reservations.Invariant.{IsValid, find-id}
use restaurant_reservation_s.Reservations.Success.{edited_row, update_reservation-stored}
use restaurant_reservation_s.Traffic.{Reply, Round, Steady, patch, read, call, lookup}
use restaurant_reservation_s.Traffic.Serving.{reply_of, if_match, name_body, round_of, served}

pub checked :
    (p : Phase) (i known : ℕ) (user : User) (required : Bool) (s : Db) {row : Reservation}
    → load_owned p i user s ≡ (ok row, s)
    → begin_edit p i user (some (if_match known)) required s ≡ (
      (if row.version == known then ok row else raised (http_exception 412 reservation_changed)),
      s,
    )
unfolding begin_edit if_match
checked p i known user required s {row} loaded =
    let tagged : check_if_match row (some (if_match known)) required ≡ (
        if row.version == known then ok tt else raised (http_exception 412 reservation_changed)) =
      unfold etag in check_if_match-etag row (record row { version = known }) required in
    ground (arith, loaded, tagged)

-- In every phase the response for a row that was renamed has the new name.
to_out-renamed :
    (e : Engine) (p : Phase) (s : Db) (row : Reservation) (name : Text)
    → name ≡ join (words name)
    → NameFits (words name)
    → to_out p p (edited_row e s (update_changes p (name_body name)) row)
      ≡ ok (out (edited_row e s (update_changes p (name_body name)) row) name)
unfolding to_out update_changes write_name
to_out-renamed e p s row name clean fits = go p
  where
    same : rebuilt_name (some (split_guest_name name).0) (some (split_guest_name name).1) ≡ name
    same = rebuilt_name-split name fits ∙ sym clean

    go :
        (p : Phase)
        → to_out p p (edited_row e s (update_changes p (name_body name)) row)
          ≡ ok (out (edited_row e s (update_changes p (name_body name)) row) name)
    go legacy = refl
    go dual_write = refl
    go read_new = rw same refl
    go new_only = rw same refl

stale :
    (e : Engine) (p : Phase) (i known : ℕ) (user : User) (name : Text) (s : Db) {row : Reservation}
    → load_owned p i user s ≡ (ok row, s)
    → (row.version == known) ≡ false
    → update_reservation e p i user (some (if_match known)) (name_body name) s
      ≡ (raised (http_exception 412 reservation_changed), s)
unfolding update_reservation
stale e p i known user name s {row} loaded old =
    >>=-raised (begin_edit p i user (some (if_match known)) true)
      (λ (r : Reservation). finish_update e p r (name_body name)) s s
      (http_exception 412 reservation_changed) (rw old at (checked p i known user true s loaded))

-- A rename that the service can make: of the user's own reservation, which can be read in the phase, to
-- a name with single spaces and parts that fit, by an UPDATE that is sent.
pub record MayRename (e : Engine) (p : Phase) (user : User) (i : ℕ) (name : Text) (s : Db)
    (row : Reservation) (old_name : Text) : Type 0 where
  pub fits : Fits p s.columns
  pub valid : IsValid s
  pub found : find_reservation i s.reservations ≡ some row
  pub own : row.user_id ≡ user.id
  pub fine : row_violations s.columns row ≡ []
  pub readable : to_out p p row ≡ ok (out row old_name)
  pub length_fits : name_fits name ≡ true
  pub single_spaces : name ≡ join (words name)
  pub parts_fit : NameFits (words name)
  pub sent : e.emits row (update_changes p (name_body name)) ≡ true

module _ {e : Engine} {p : Phase} {user : User} {i : ℕ} {name : Text} {s : Db} {row : Reservation}
    {old_name : Text} (m : MayRename e p user i name s row old_name) where
  abbrev pub renamed_row : Reservation
  renamed_row = edited_row e s (update_changes p (name_body name)) row

  loaded : load_owned p i user s ≡ (ok row, s)
  loaded = load_owned-own p i user s m.fits m.found m.own

  written :
      finish_update e p row (name_body name) s
      ≡ (ok (out renamed_row name, etag renamed_row), with_replaced s renamed_row)
  unfolding finish_update
  written =
      let at_id : find_reservation row.id s.reservations ≡ some row =
        subst (λ j. find_reservation j s.reservations ≡ some row)
          (sym (find-id i s.reservations m.found)) m.found in
      let body_valid : validate_update (name_body name) ≡ true =
        unfold validate_update in rw m.length_fits refl in
      >>=-ok (Service.update_reservation e p row (name_body name)) (respond p p) s
        (with_replaced s renamed_row) renamed_row
        (update_reservation-stored e p s row (name_body name) m.fits m.valid at_id m.fine body_valid
          refl m.sent)
      ∙ responded p renamed_row name (with_replaced s renamed_row)
          (to_out-renamed e p s row name m.single_spaces m.parts_fit)

  current :
      (known : ℕ)
      → (row.version == known) ≡ true
      → update_reservation e p i user (some (if_match known)) (name_body name) s
        ≡ (ok (out renamed_row name, etag renamed_row), with_replaced s renamed_row)
  unfolding update_reservation
  current known same =
      >>=-ok (begin_edit p i user (some (if_match known)) true)
        (λ (r : Reservation). finish_update e p r (name_body name)) s s row
        (rw same at (checked p i known user true s loaded))
      ∙ written

  reread : get_reservation p p i user s ≡ (ok (out row old_name, etag row), s)
  unfolding get_reservation
  reread =
      >>=-ok (load_owned p i user) (respond p p) s s row loaded
      ∙ responded p row old_name s m.readable

  -- The answers of the service, as the script sees them.
  abbrev pub won : Reply
  won = record {
    status = 200;
    id = renamed_row.id;
    guest_name = some name;
    version = renamed_row.version;
  }

  abbrev pub refused : Reply
  refused = record { status = 412; id = 0; guest_name = none; version = 0 }

  abbrev pub seen_again : Reply
  seen_again = record {
    status = 200;
    id = row.id;
    guest_name = some old_name;
    version = row.version;
  }

  abbrev pub later_rounds : ℕ → Steady → Reply → Reply → Db → List Round × Db
  later_rounds tries st a g u =
      served e p user i name tries (read i (some g) 0 (call patch (some a) 0 st)) u

  pub served-current :
      (tries known : ℕ) (st : Steady)
      → lookup i st.version ≡ some known
      → (row.version == known) ≡ true
      → served e p user i name (suc tries) st s ≡ (
        record { patched = some won; patched_ms = 0; reread = none; reread_ms = 0 } ∷ [],
        with_replaced s renamed_row,
      )
  unfolding served
  served-current tries known st look same =
      rw (look, served)
        (ap (round_of (get_reservation p p i user) (later_rounds tries st)) (current known same))

  pub served-stale :
      (tries known : ℕ) (st : Steady)
      → lookup i st.version ≡ some known
      → (row.version == known) ≡ false
      → served e p user i name (suc tries) st s ≡ (
        record { patched = some refused; patched_ms = 0; reread = some seen_again; reread_ms = 0 }
            ∷ (later_rounds tries st refused seen_again s).0,
        (later_rounds tries st refused seen_again s).1,
      )
  unfolding served status_code
  served-stale tries known st look old =
      rw (look, served)
        (ap (round_of (get_reservation p p i user) (later_rounds tries st))
            (stale e p i known user name s loaded old)
          ∙ ap
              (λ (g : Outcome Response × Db).
                let rest = later_rounds tries st refused (reply_of g.0) g.1 in
                (
                  record {
                    patched = some refused;
                    patched_ms = 0;
                    reread = some (reply_of g.0);
                    reread_ms = 0;
                  }
                      ∷ rest.0,
                  rest.1,
                ))
              reread)
