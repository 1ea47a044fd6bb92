-- ===== src/Reservations/Race.antt =====
-- GET of a reservation while the phase changes (app/routers/reservations.py, get_reservation, and
-- app/services/reservations.py, _fields).
use restaurant_reservation_s.Prelude.{
  ℕ, ◌≡◌, refl, ◌∙◌, Bool, true, false, not, ◌&&◌, ◌||◌, some, arith, ==-refl, if◌then◌else◌,
}
use restaurant_reservation_s.Http.{ok, raised, status_code, raiseload_error}
use restaurant_reservation_s.Names.{Text}
use restaurant_reservation_s.Models.User.{User}
use restaurant_reservation_s.Models.Reservation.{Reservation}
use restaurant_reservation_s.Database.{Db, find_reservation}
use restaurant_reservation_s.Action.Effects.{>>=-ok}
use restaurant_reservation_s.Migration.Phase.{
  Phase, legacy, dual_write, read_new, new_only, read_columns, contains, first_name,
}
use restaurant_reservation_s.Migration.Fit.{Fits}
use restaurant_reservation_s.Reservations.Store.{select_reservation}
use restaurant_reservation_s.Reservations.Etag.{etag}
use restaurant_reservation_s.Reservations.Routes.{
  Response, out, to_out, respond, load_owned, get_reservation,
}

pub load_owned-own :
    (p : Phase) (i : ℕ) (user : User) (s : Db) {row : Reservation}
    → Fits p s.columns
    → find_reservation i s.reservations ≡ some row
    → row.user_id ≡ user.id
    → load_owned p i user s ≡ (ok row, s)
unfolding load_owned select_reservation
load_owned-own p i user s {row} f found own = ground (arith, f.reads, found, own, ==-refl user.id)

-- Whether a phase reads the two new columns.
abbrev pub reads_new : Phase → Bool
reads_new p = contains first_name (read_columns p)

abbrev pub same_reads : Phase → Phase → Bool
same_reads p q = (reads_new p && reads_new q) || (not (reads_new p) && not (reads_new q))

to_out-changed :
    (loaded now : Phase) (row : Reservation) (name : Text)
    → to_out now now row ≡ ok (out row name)
    → to_out loaded now row
      ≡ (if same_reads loaded now then ok (out row name) else raised raiseload_error)
unfolding to_out
to_out-changed legacy legacy row name h = h
to_out-changed legacy dual_write row name h = h
to_out-changed legacy read_new row name h = refl
to_out-changed legacy new_only row name h = refl
to_out-changed dual_write legacy row name h = h
to_out-changed dual_write dual_write row name h = h
to_out-changed dual_write read_new row name h = refl
to_out-changed dual_write new_only row name h = refl
to_out-changed read_new legacy row name h = refl
to_out-changed read_new dual_write row name h = refl
to_out-changed read_new read_new row name h = h
to_out-changed read_new new_only row name h = h
to_out-changed new_only legacy row name h = refl
to_out-changed new_only dual_write row name h = refl
to_out-changed new_only read_new row name h = h
to_out-changed new_only new_only row name h = h

answer_code :
    (b : Bool) (r : Response)
    → status_code (if b then ok r else raised raiseload_error) ≡ (if b then 200 else 500)
unfolding status_code
answer_code true r = refl
answer_code false r = refl

-- The owner's GET of a stored reservation that the later phase can show, in a schema that the earlier
-- phase fits: when the phase changes between the query and the response, the answer is the same as
-- without a change if both phases read the same name columns, and otherwise a 500 although nothing is
-- wrong with the row. The database stays as it is.
pub get_reservation-phase_change :
    (loaded now : Phase) (i : ℕ) (user : User) (s : Db) (row : Reservation) (name : Text)
    → Fits loaded s.columns
    → find_reservation i s.reservations ≡ some row
    → row.user_id ≡ user.id
    → to_out now now row ≡ ok (out row name)
    → (get_reservation loaded now i user s ≡ (
      (if same_reads loaded now then ok (out row name, etag row) else raised raiseload_error),
      s,
    ))
      × (status_code (get_reservation loaded now i user s).0
          ≡ (if same_reads loaded now then 200 else 500))
unfolding get_reservation status_code
get_reservation-phase_change loaded now i user s row name f found own readable =
    let answer : get_reservation loaded now i user s ≡ (
      (if same_reads loaded now then ok (out row name, etag row) else raised raiseload_error),
      s,
    ) =
      >>=-ok (load_owned loaded i user) (respond loaded now) s s row
        (load_owned-own loaded i user s f found own)
      ∙ (unfold respond in ground (arith, to_out-changed loaded now row name readable)) in
    (answer, rw answer (answer_code (same_reads loaded now) (out row name, etag row)))
