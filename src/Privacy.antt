-- ===== src/Privacy.antt =====
-- Who may read what: the routes of app/routers that look at the caller.
use restaurant_reservation_s.Prelude.{ℕ, ◌≡◌, List, [], ◌∷◌, some, arith}
use restaurant_reservation_s.Http.{ok}
use restaurant_reservation_s.Models.User.{User, customer}
use restaurant_reservation_s.Models.Order.{Order}
use restaurant_reservation_s.Database.{Db, find_user}
use restaurant_reservation_s.Migration.Phase.{Phase}
use restaurant_reservation_s.Users.{get_user}
use restaurant_reservation_s.Orders.Routes.{get_order}
use restaurant_reservation_s.Reservations.Routes.{
  Response, load_owned, respond, to_out, get_reservation,
}

find_user-id : (i : ℕ) (us : List User) {v : User} → find_user i us ≡ some v → v.id ≡ i
unfolding find_user
find_user-id i [] h = cc
find_user-id i (u ∷ us) {v = v} h = ground (arith, find_user-id i us {v = v})

-- A customer who reads one reservation, one order and one account, and gets an answer, reads only
-- what is his own.
pub customer_reads_own :
    (current : User) (loaded now : Phase) (i j k : ℕ) (s t u : Db) {r : Response} {o : Order}
    {v : User}
    → current.role ≡ customer
    → (get_reservation loaded now i current s).0 ≡ ok r
    → (get_order j current t).0 ≡ ok o
    → (get_user k current u).0 ≡ ok v
    → (r.0.user_id ≡ current.id) × (o.user_id ≡ current.id) × (v.id ≡ current.id)
unfolding get_reservation load_owned respond to_out get_order get_user
customer_reads_own current loaded now i j k s t u {r} {o} {v} role a b c =
    (ground arith, ground arith, ground (arith, find_user-id k u.users {v = v}))
