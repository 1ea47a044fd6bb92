-- ===== src/Traffic/Serving.antt =====
-- A rename of steady mode against the service (scripts/traffic.py, Steady.rename and read, and
-- app/routers/reservations.py): the answers, when no other request comes in between.
use restaurant_reservation_s.Prelude.{ℕ, zero, suc, true, false, List, [], ◌∷◌, ◌++◌, none, some}
use restaurant_reservation_s.Http.{Outcome, ok, raised, status_code}
use restaurant_reservation_s.Names.{Text}
use restaurant_reservation_s.Models.User.{User}
use restaurant_reservation_s.Database.{Db, Engine}
use restaurant_reservation_s.Migration.Phase.{Phase}
use restaurant_reservation_s.Reservations.Requests.{ReservationUpdate}
use restaurant_reservation_s.Reservations.Etag.{quote, decimal}
use restaurant_reservation_s.Reservations.Routes.{Response, update_reservation, get_reservation}
use restaurant_reservation_s.Traffic.{Reply, Round, Steady, patch, must_retry, read, call, lookup}

-- The reply that the script sees for an answer of the service.
abbrev pub reply_of : Outcome Response → Reply
reply_of (ok (o, tag)) = record {
  status = 200;
  id = o.id;
  guest_name = some o.guest_name;
  version = o.version;
}
reply_of (raised x) =
    let r : Outcome Response = raised x in
    record { status = status_code r; id = 0; guest_name = none; version = 0 }

-- {"If-Match": f'"{version}"'}
unfoldable pub if_match : ℕ → Text
if_match version = quote ∷ (decimal version ++ quote ∷ [])

-- json={"guest_name": name}
abbrev pub name_body : Text → ReservationUpdate
name_body name = record { guest_name = some name; party_size = none; status = none }

-- A round whose PATCH is answered: over, or with the GET and the rounds that follow.
abbrev pub round_of :
    (Db → Outcome Response × Db)
    → (Reply → Reply → Db → List Round × Db)
    → Outcome Response × Db
    → List Round × Db
round_of reading later (a, t) = elim (must_retry (some (reply_of a))) [
  | false ↦
      (record { patched = some (reply_of a); patched_ms = 0; reread = none; reread_ms = 0 } ∷ [], t)
  | true ↦
      let g = reading t in
      let rest = later (reply_of a) (reply_of g.0) g.1 in
      (
        record {
          patched = some (reply_of a);
          patched_ms = 0;
          reread = some (reply_of g.0);
          reread_ms = 0;
        }
            ∷ rest.0,
        rest.1,
      )
]

module _ (e : Engine) (p : Phase) (user : User) (i : ℕ) (name : Text) where
  -- The rounds of `rename` against the service, with the script's version of the reservation at each
  -- PATCH, and the database afterwards.
  unfoldable pub served : ℕ → Steady → Db → List Round × Db
  unfolding if_match
  served zero st s = ([], s)
  served (suc tries) st s = elim (lookup i st.version) [
    | none ↦ ([], s)
    | some known ↦
        round_of (get_reservation p p i user)
          (λ a g u. served tries (read i (some g) 0 (call patch (some a) 0 st)) u)
          (update_reservation e p i user (some (if_match known)) (name_body name) s)
  ]
