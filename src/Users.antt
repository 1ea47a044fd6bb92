-- ===== src/Users.antt =====
-- Accounts (app/routers/users.py, app/schemas/user.py). `same_email` is the comparison of CITEXT, and
-- `hash` is bcrypt's.
pub mod Accounts
use restaurant_reservation_s.Prelude.{
  ℕ, Bool, true, false, not, ◌&&◌, ◌||◌, List, [], ◌∷◌, Option, none, some, ◌==◌, leb, any, length,
  if◌then◌else◌,
}
use restaurant_reservation_s.Http.{
  Outcome, ok, raised, http_exception, email_registered, cannot_read_user, user_not_found,
}
use restaurant_reservation_s.Names.{Text}
use restaurant_reservation_s.Models.User.{User, UserRole, customer, role_eq}
use restaurant_reservation_s.Database.{Db, Engine, find_user}
use restaurant_reservation_s.Action.{Action, ◌>>=◌, ◌>>◌, require, find_or_raise}

pub record UserCreate : Type 0 where
  pub email : Text
  pub password : Text
  pub full_name : Text
  pub phone : Option Text

-- A field of a PATCH body: left out, null, or a value.
pub data Field : Type 0 where
  unset null : Field
  value : Text → Field

pub record UserUpdate : Type 0 where
  pub email : Field
  pub full_name : Field
  pub phone : Field

-- The row that signup adds.
unfoldable pub new_user : Engine → (Text → Text) → UserCreate → List User → User
new_user e hash b us = record {
  id = e.next_user_id us;
  email = b.email;
  password_hash = hash b.password;
  full_name = b.full_name;
  phone = b.phone;
  role = customer;
  is_active = true;
  created_at = e.now;
}

module _ (same_email : Text → Text → Bool) where
  -- The unique index on email, and CHECK (char_length(full_name) >= 2), for a row among others.
  unfoldable pub user_violates : User → List User → Bool
  user_violates u us = any (λ v. same_email v.email u.email) us || not (leb 2 (length u.full_name))

  -- POST /api/v1/users
  unfoldable pub create_user : Engine → (Text → Text) → UserCreate → Action User
  create_user e hash b s =
      if user_violates (new_user e hash b s.users) s.users
      then (raised (http_exception 409 email_registered), s)
      else (
        ok (new_user e hash b s.users),
        record s { users = new_user e hash b s.users ∷ s.users },
      )

  unfoldable pub other_users : ℕ → List User → List User
  other_users i [] = []
  other_users i (u ∷ us) = if u.id == i then other_users i us else u ∷ other_users i us

  unfoldable pub replace_user : User → List User → List User
  replace_user u [] = []
  replace_user u (v ∷ vs) = if v.id == u.id then u ∷ vs else v ∷ replace_user u vs

  -- A null or a missing email or full_name is ignored.
  abbrev pub kept_or : Field → Text → Text
  kept_or unset old = old
  kept_or null old = old
  kept_or (value new) old = new

  -- A null phone clears it.
  abbrev pub cleared_or : Field → Option Text → Option Text
  cleared_or unset old = old
  cleared_or null old = none
  cleared_or (value new) old = some new

  unfoldable pub edited : UserUpdate → User → User
  edited b u = record u {
    email = kept_or b.email u.email;
    full_name = kept_or b.full_name u.full_name;
    phone = cleared_or b.phone u.phone;
  }

  -- PATCH /api/v1/users/me
  unfoldable pub update_own_profile : UserUpdate → User → Action User
  update_own_profile b current s =
      if user_violates (edited b current) (other_users current.id s.users)
      then (raised (http_exception 409 email_registered), s)
      else (ok (edited b current), record s { users = replace_user (edited b current) s.users })

-- GET /api/v1/users/{id}
unfoldable pub get_user : ℕ → User → Action User
get_user i current = do
  require (not (role_eq current.role customer) || current.id == i) 403 cannot_read_user
  find_or_raise (λ s. find_user i s.users) 404 user_not_found
