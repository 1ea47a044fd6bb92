-- ===== src/Traffic/Burst.antt =====
-- Concurrent mode against the service (scripts/traffic.py, concurrent, and
-- app/routers/reservations.py, create_reservation).
use restaurant_reservation_s.Prelude.{
  ℕ, ◌<◌, ◌≡◌, refl, true, false, List, [], ◌∷◌, ◌==◌, any, count_where, length, arith,
  if◌then◌else◌, ==-refl,
}
use restaurant_reservation_s.Http.{Outcome, ok, raised, status_code}
use restaurant_reservation_s.Models.User.{User}
use restaurant_reservation_s.Models.Restaurant.{RestaurantTable}
use restaurant_reservation_s.Models.Reservation.{Reservation, conflicts}
use restaurant_reservation_s.Database.{Db, Engine}
use restaurant_reservation_s.Migration.Phase.{Phase, legacy, dual_write, read_new, new_only}
use restaurant_reservation_s.Migration.Fit.{Fits}
use restaurant_reservation_s.Reservations.Requests.{ReservationCreate}
use restaurant_reservation_s.Reservations.Service.{new_reservation}
use restaurant_reservation_s.Reservations.Routes.{create_reservation, respond, to_out, Response}
use restaurant_reservation_s.Reservations.Inversion.{stored}
use restaurant_reservation_s.Reservations.Cases.{with_row, respond-Reads}
use restaurant_reservation_s.Reservations.Outcomes.{
  IsAcceptable-with_row, IsAcceptable, create_reservation-conflict_or_stored,
}
use restaurant_reservation_s.Traffic.{one_won}

-- The status that POST /reservations is answered with.
abbrev pub posted_code : Outcome Response → ℕ
posted_code (ok r) = 201
posted_code (raised x) = let r : Outcome Response = raised x in status_code r

-- The requests of a burst, in the order in which their transactions commit; each has its own engine.
unfoldable pub fire : List Engine → Phase → User → ReservationCreate → Db → List ℕ
fire [] p user b s = []
fire (e ∷ es) p user b s =
    let (r, t) = create_reservation e p user b s in posted_code r ∷ fire es p user b t

respond-stored :
    (e : Engine) (p : Phase) (user_id : ℕ) (b : ReservationCreate) (s t : Db)
    → posted_code (respond p p (stored e s (new_reservation p user_id b)) t).0 ≡ 201
unfolding respond to_out new_reservation
respond-stored e legacy user_id b s t = refl
respond-stored e dual_write user_id b s t = refl
respond-stored e read_new user_id b s t = refl
respond-stored e new_only user_id b s t = refl

module _ (p : Phase) (user : User) (b : ReservationCreate) (t : RestaurantTable) where
  abbrev requested : Reservation
  requested = new_reservation p user.id b

  -- A request that is acceptable is answered 409 or 201, with nothing else written than its row.
  posted :
      (e : Engine) (s : Db)
      → Fits p s.columns
      → IsAcceptable s user.id b t
      → (posted_code (create_reservation e p user b s).0
          ≡ (if any (conflicts requested) s.reservations then 409 else 201))
        × ((create_reservation e p user b s).1 ≡ (
            if any (conflicts requested) s.reservations
            then s
            else with_row s (stored e s requested)))
  unfolding create_reservation status_code
  posted e s f a =
      let whole = create_reservation-conflict_or_stored e p user.id b s t f a in
      let answered = respond-stored e p user.id b s (with_row s (stored e s requested)) in
      let unchanged =
        respond-Reads p p (stored e s requested) (with_row s (stored e s requested)) in
      ground (arith, whole, answered, unchanged)

  lost :
      (es : List Engine) (s : Db)
      → Fits p s.columns
      → IsAcceptable s user.id b t
      → any (conflicts requested) s.reservations ≡ true
      → (count_where (λ c. c == 201) (fire es p user b s) ≡ 0)
        × (count_where (λ c. c == 409) (fire es p user b s) ≡ length es)
  unfolding fire
  lost [] s f a taken = (refl, refl)
  lost (e ∷ es) s f a taken =
      let now = posted e s f a in
      let kept : (create_reservation e p user b s).1 ≡ s = rw taken at now.1 in
      let code : posted_code (create_reservation e p user b s).0 ≡ 409 = rw taken at now.0 in
      let later = lost es s f a taken in
      rw (kept, code) (omega (arith, later.0), omega (arith, later.1))

  conflicts_itself :
      (e : Engine) (s : Db)
      → b.starts_at < b.ends_at
      → conflicts requested (stored e s requested) ≡ true
  unfolding conflicts new_reservation
  conflicts_itself e s h = ground (arith, ==-refl b.restaurant_table_id)

  won :
      (e : Engine) (es : List Engine) (s : Db)
      → Fits p s.columns
      → IsAcceptable s user.id b t
      → any (conflicts requested) s.reservations ≡ false
      → (count_where (λ c. c == 201) (fire (e ∷ es) p user b s) ≡ 1)
        × (count_where (λ c. c == 409) (fire (e ∷ es) p user b s) ≡ length es)
  unfolding fire
  won e es s f a free =
      let now = posted e s f a in
      let row = stored e s requested in
      let next : (create_reservation e p user b s).1 ≡ with_row s row = rw free at now.1 in
      let code : posted_code (create_reservation e p user b s).0 ≡ 201 = rw free at now.0 in
      let taken : any (conflicts requested) (with_row s row).reservations ≡ true =
        rw (conflicts_itself e s a.window) refl in
      let later = lost es (with_row s row) f (IsAcceptable-with_row s user.id b t row a) taken in
      rw (next, code) (omega (arith, later.0), omega (arith, later.1))

  -- In a phase that fits the schema, when a burst of one or more equal requests passes the checks and
  -- the slot is free, exactly one is answered 201 and all others 409, in whatever order they commit:
  -- the script's verdict is that one booking won.
  pub fire-one_won :
      (e : Engine) (es : List Engine) (s : Db)
      → Fits p s.columns
      → IsAcceptable s user.id b t
      → any (conflicts requested) s.reservations ≡ false
      → one_won (length (e ∷ es)) (fire (e ∷ es) p user b s) ≡ true
  unfolding one_won
  fire-one_won e es s f a free =
      let counts = won e es s f a free in rw (counts.0, counts.1) (ground arith)
