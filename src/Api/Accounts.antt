-- ===== src/Api/Accounts.antt =====
-- Consistency under signups, profile edits and new restaurants (app/routers/users.py and
-- app/routers/restaurants.py).
use restaurant_reservation_s.Prelude.{
  ℕ, ◌≡◌, refl, Bool, true, List, [], ◌∷◌, some, arith, Bool-cases, inl, inr,
}
use restaurant_reservation_s.Names.{Text}
use restaurant_reservation_s.Models.User.{User, UserRole, staff, admin, customer}
use restaurant_reservation_s.Models.Restaurant.{Restaurant}
use restaurant_reservation_s.Database.{Db, Engine, find_user, find_restaurant}
use restaurant_reservation_s.Users.{
  UserCreate, UserUpdate, create_user, update_own_profile, new_user, edited, replace_user,
  user_violates, other_users,
}
use restaurant_reservation_s.Security.{guarded, require_role}
use restaurant_reservation_s.Restaurants.{
  RestaurantCreate, validate_restaurant, insert_restaurant, create_restaurant,
}
use restaurant_reservation_s.Reservations.Store.{is_some}
use restaurant_reservation_s.Api.Integrity.{
  HasUser, HasRestaurant, RestaurantRefs, IsConsistent, Grows-IsConsistent,
}

-- Accounts are added, or edited under the same id.
users-IsConsistent :
    (s : Db) (us : List User)
    → IsConsistent s
    → ((i : ℕ) → HasUser s i → is_some (find_user i us) ≡ true)
    → IsConsistent (record s { users = us })
users-IsConsistent s us c more =
    Grows-IsConsistent s (record s { users = us })
      (record { users = more; restaurants = λ i h. h; tables = refl; bookings = λ u i h. h })
      c.restaurants c.reservations c.orders

find_user-cons :
    (u : User) (us : List User) (i : ℕ)
    → is_some (find_user i us) ≡ true
    → is_some (find_user i (u ∷ us)) ≡ true
unfolding find_user
find_user-cons u us i h = ground (arith, h)

find_user-replace :
    (same_email : Text → Text → Bool) (u : User) (us : List User) (i : ℕ)
    → is_some (find_user i us) ≡ true
    → is_some (find_user i (replace_user same_email u us)) ≡ true
unfolding find_user replace_user
find_user-replace same_email u [] i h = h
find_user-replace same_email u (v ∷ us) i h = ground (arith, h, find_user-replace same_email u us i)

pub signs_up-IsConsistent :
    (same_email : Text → Text → Bool) (e : Engine) (hash : Text → Text) (b : UserCreate) (s : Db)
    → IsConsistent s
    → IsConsistent (create_user same_email e hash b s).1
unfolding create_user
signs_up-IsConsistent same_email e hash b s c =
    elim (Bool-cases (user_violates same_email (new_user e hash b s.users) s.users)) [
      | inl clash ↦ rw clash c
      | inr fine ↦ rw fine (
          users-IsConsistent s (new_user e hash b s.users ∷ s.users) c
            (find_user-cons (new_user e hash b s.users) s.users))
    ]

pub edits_profile-IsConsistent :
    (same_email : Text → Text → Bool) (b : UserUpdate) (current : User) (s : Db)
    → IsConsistent s
    → IsConsistent (update_own_profile same_email b current s).1
unfolding update_own_profile
edits_profile-IsConsistent same_email b current s c =
    elim (Bool-cases (
      user_violates same_email (edited same_email b current)
        (other_users same_email current.id s.users))) [
          | inl clash ↦ rw clash c
          | inr fine ↦ rw fine (
              users-IsConsistent s (replace_user same_email (edited same_email b current) s.users) c
                (find_user-replace same_email (edited same_email b current) s.users))
        ]

-- A restaurant is added, which its owner opened.
opened-IsConsistent :
    (s : Db) (r : Restaurant)
    → IsConsistent s
    → RestaurantRefs s r
    → IsConsistent (record s { restaurants = r ∷ s.restaurants })
opened-IsConsistent s r c h =
    Grows-IsConsistent s (record s { restaurants = r ∷ s.restaurants })
      (record {
        users = λ i k. k;
        restaurants = λ i k. more i k;
        tables = refl;
        bookings = λ u i k. k;
      })
      (h, c.restaurants) c.reservations c.orders
  where
    more : (i : ℕ) → HasRestaurant s i → is_some (find_restaurant i (r ∷ s.restaurants)) ≡ true
    more i k = unfold find_restaurant in ground (arith, k)

pub opens-IsConsistent :
    (e : Engine) (new_id : ℕ) (b : RestaurantCreate) (current : User) (s : Db)
    → IsConsistent s
    → find_user current.id s.users ≡ some current
    → validate_restaurant b ≡ true
    → IsConsistent (create_restaurant e new_id b current s).1
unfolding create_restaurant guarded insert_restaurant
opens-IsConsistent e new_id b current s c found valid = go current.role refl
  where
    inserted : IsConsistent (insert_restaurant e new_id current.id b s).1
    inserted = opened-IsConsistent s _ c (record {
      owner = rw found refl;
      price_at_least_one = unfold validate_restaurant in ground (arith, valid);
      price_at_most_four = unfold validate_restaurant in ground (arith, valid);
    })

    go :
        (role : UserRole)
        → current.role ≡ role
        → IsConsistent (create_restaurant e new_id b current s).1
    go customer h = unfold require_role in rw h c
    go staff h = unfold require_role in rw h inserted
    go admin h = unfold require_role in rw h inserted
