-- ===== src/LoadTest/Edits.antt =====
-- A customer of the load test who edits and cancels a booking (loadtest/locustfile.py, edit_booking and
-- cancel_booking) when nobody else writes meanwhile.
use restaurant_reservation_s.Prelude.{
  ℕ, ◌≤◌, ◌≡◌, refl, ap, ◌∙◌, true, false, List, [], ◌∷◌, ◌++◌, some, arith, ==-refl, ltb, length,
}
use restaurant_reservation_s.Http.{ok, status_code}
use restaurant_reservation_s.Names.{Text}
use restaurant_reservation_s.Models.User.{User}
use restaurant_reservation_s.Models.Reservation.{Reservation, cancelled}
use restaurant_reservation_s.Database.{Db, Engine}
use restaurant_reservation_s.Action.Effects.{>>=-ok}
use restaurant_reservation_s.Migration.Phase.{Phase}
use restaurant_reservation_s.Reservations.Requests.{validate_update, party_fits}
use restaurant_reservation_s.Reservations.Etag.{etag}
use restaurant_reservation_s.Reservations.Service
use restaurant_reservation_s.Reservations.Service.{update_changes, cancel_changes}
use restaurant_reservation_s.Reservations.Routes.{
  out, respond, load_owned, begin_edit, finish_update, finish_cancel, update_reservation,
  cancel_reservation, get_reservation,
}
use restaurant_reservation_s.Reservations.Race.{load_owned-own}
use restaurant_reservation_s.Reservations.Cases.{with_replaced}
use restaurant_reservation_s.Reservations.Store.{replace}
use restaurant_reservation_s.Reservations.Edited.{InPlace, replace-InPlace}
use restaurant_reservation_s.LoadTest.Noted.{IsNoted, remember-IsNoted, pop_last-++, length-snoc}
use restaurant_reservation_s.Reservations.Success.{edited_row, update_reservation-stored}
use restaurant_reservation_s.Traffic.Serving.{if_match}
use restaurant_reservation_s.Traffic.Answers.{checked}
use restaurant_reservation_s.Reservations.Readable.{responded}
use restaurant_reservation_s.LoadTest.{
  Customer, remember, party_body, patched, edited_with, edit_booking, cancel_booking,
}
use restaurant_reservation_s.Reservations.Changing.{
  MayChange, to_out-unnamed, at_id, dropped, dropped-written,
}

module _ {e : Engine} {p : Phase} {user : User} {i : ℕ} {s : Db} {row : Reservation} {name : Text}
    (m : MayChange e p user i s row name) where
  loaded : row.user_id ≡ user.id → load_owned p i user s ≡ (ok row, s)
  loaded own = load_owned-own p i user s m.fits m.found own

  -- The row with a party of n.
  abbrev resized : ℕ → Reservation
  resized n = edited_row e s (update_changes p (party_body n)) row

  shown : row.user_id ≡ user.id → get_reservation p p i user s ≡ (ok (out row name, etag row), s)
  unfolding get_reservation
  shown own =
      >>=-ok (load_owned p i user) (respond p p) s s row (loaded own)
      ∙ responded p row name s m.readable

  resized-written :
      (n : ℕ)
      → party_fits n ≡ true
      → e.emits row (update_changes p (party_body n)) ≡ true
      → finish_update e p row (party_body n) s
        ≡ (ok (out (resized n) name, etag (resized n)), with_replaced s (resized n))
  unfolding finish_update
  resized-written n fits sent =
      >>=-ok (Service.update_reservation e p row (party_body n)) (respond p p) s
        (with_replaced s (resized n)) (resized n)
        (update_reservation-stored e p s row (party_body n) m.fits m.valid (at_id m) m.fine
          (unfold validate_update in rw fits refl) refl sent)
      ∙ responded p (resized n) name (with_replaced s (resized n)) (
          to_out-unnamed e p s row (update_changes p (party_body n)) name
            (unfold update_changes in refl) m.readable)

  changed :
      (n : ℕ)
      → row.user_id ≡ user.id
      → party_fits n ≡ true
      → e.emits row (update_changes p (party_body n)) ≡ true
      → update_reservation e p i user (some (if_match row.version)) (party_body n) s
        ≡ (ok (out (resized n) name, etag (resized n)), with_replaced s (resized n))
  unfolding update_reservation
  changed n own fits sent =
      >>=-ok (begin_edit p i user (some (if_match row.version)) true)
        (λ (r : Reservation). finish_update e p r (party_body n)) s s row
        (rw (==-refl row.version) at (checked p i row.version user true s (loaded own)))
      ∙ resized-written n fits sent

  removed :
      row.user_id ≡ user.id
      → e.emits row cancel_changes ≡ true
      → cancel_reservation e p i user (some (if_match row.version)) s
        ≡ (ok (out (dropped m) name, etag (dropped m)), with_replaced s (dropped m))
  unfolding cancel_reservation
  removed own sent =
      >>=-ok (begin_edit p i user (some (if_match row.version)) false)
        (λ (r : Reservation). finish_cancel e p r) s s row
        (rw (==-refl row.version) at (checked p i row.version user false s (loaded own)))
      ∙ dropped-written m sent

  edited :
      (n : ℕ) (c : Customer)
      → row.user_id ≡ user.id
      → party_fits n ≡ true
      → e.emits row (update_changes p (party_body n)) ≡ true
      → edit_booking e p user i n c s ≡ record {
        code = some 200;
        customer = record c { bookings = remember i (resized n).version c.bookings };
        db = with_replaced s (resized n);
      }
  unfolding edit_booking
  edited n c own fits sent =
      ap (λ x. edited_with (λ tag. update_reservation e p i user (some tag) (party_body n)) i x c)
        (shown own)
      ∙ ap (λ x. patched i x c) (changed n own fits sent)

  -- The bookings start with b; the last one is his.
  given_up :
      (d : Customer) (b : ℕ × ℕ) (bs : List (ℕ × ℕ))
      → row.user_id ≡ user.id
      → e.emits row cancel_changes ≡ true
      → d.bookings ≡ b ∷ (bs ++ (i, row.version) ∷ [])
      → 2 ≤ length (b ∷ bs)
      → cancel_booking e p user d s ≡ record {
        code = some 200;
        customer = record d { bookings = b ∷ bs };
        db = with_replaced s (dropped m);
      }
  unfolding cancel_booking status_code
  given_up d b bs own gone noted two =
      let few : ltb (length (b ∷ (bs ++ (i, row.version) ∷ []))) 3 ≡ false =
        ground (arith, two, length-snoc (i, row.version) bs) in
      rw (noted, few, pop_last-++ b bs (i, row.version), removed own gone) refl

  -- In a phase that fits the schema of a valid database, for the customer's own booking, which satisfies
  -- its constraints and can be read, when nobody else writes meanwhile and the UPDATEs are sent: the
  -- edit to a party of 1 to 20 is answered 200, whatever version the customer has noted; the row with
  -- this party and a new version, otherwise as it was, stands in its place; and he has noted its new
  -- version, and those of his other bookings as before. And the cancellation is answered 200 when the
  -- booking is the last of three or more that he has noted, under its current version: the row that is
  -- cancelled, under a new version and otherwise as it was, stands in its place, and he keeps the
  -- bookings before it.
  pub tasks-served :
      (n : ℕ) (c d : Customer) (kept : List (ℕ × ℕ))
      → row.user_id ≡ user.id
      → party_fits n ≡ true
      → e.emits row (update_changes p (party_body n)) ≡ true
      → e.emits row cancel_changes ≡ true
      → d.bookings ≡ kept ++ (i, row.version) ∷ []
      → 2 ≤ length kept
      → ((noted : List (ℕ × ℕ)) × (after : List Reservation) × (edit_booking e p user i n c s
            ≡ record {
              code = some 200;
              customer = record c { bookings = noted };
              db = record s { reservations = after };
            })
          × IsNoted i (e.next_xid s.reservations) c.bookings noted
          × InPlace row
              (record row { party_size = n; version = e.next_xid s.reservations })
              s.reservations
              after)
        × ((after : List Reservation) × (cancel_booking e p user d s ≡ record {
          code = some 200;
          customer = record d { bookings = kept };
          db = record s { reservations = after };
        })
            × InPlace row
                (record row { status = cancelled; version = e.next_xid s.reservations })
                s.reservations
                after)
  unfolding update_changes
  tasks-served n c d [] own fits sent gone noted two = absurd (omega (arith, two))
  tasks-served n c d (b ∷ bs) own fits sent gone noted two = (
    (
      remember i (e.next_xid s.reservations) c.bookings,
      replace (resized n) s.reservations,
      edited n c own fits sent,
      remember-IsNoted i (e.next_xid s.reservations) c.bookings,
      replace-InPlace row (resized n) s.reservations (at_id m),
    ),
    (
      replace (dropped m) s.reservations,
      given_up d b bs own gone noted two,
      replace-InPlace row (dropped m) s.reservations (at_id m),
    ),
  )
