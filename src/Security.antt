-- ===== src/Security.antt =====
-- Login, tokens and roles (app/security.py, app/routers/auth.py). bcrypt and PyJWT are parameters.
pub mod Access
use restaurant_reservation_s.Prelude.{
  ℕ, ◌+◌, ◌*◌, ◌<◌, ◌≤◌, ◌≡◌, Bool, true, false, not, ◌&&◌, ◌||◌, List, [], ◌∷◌, Option, none, some,
  ◌==◌, any, if◌then◌else◌,
}
use restaurant_reservation_s.Http.{
  Outcome, ok, raised, http_exception, not_authenticated, requires_role, invalid_login,
  account_disabled,
}
use restaurant_reservation_s.Names.{Text}
use restaurant_reservation_s.Models.User.{User, UserRole, role_eq}
use restaurant_reservation_s.Action.{Action}
use restaurant_reservation_s.Database.{Db, find_user}

-- The payload of a token: sub, role, iat and exp, the times in seconds.
pub record Claims : Type 0 where
  pub sub : ℕ
  pub role : UserRole
  pub iat : ℕ
  pub exp : ℕ

-- What the code uses of its libraries: bcrypt.checkpw; jwt.encode with the secret of the settings, and
-- jwt.decode, which gives the claims of a token that was signed with that secret, was not issued in the
-- future and has not expired.
-- `decode` is none where decoding or reading `sub` raises.
pub record Crypto : Type 0 where
  pub check : Text → Text → Bool
  pub encode : Claims → Text
  pub decode : Text → ℕ → Option Claims
  pub decode-encode :
      (c : Claims) (now : ℕ) → c.iat ≤ now → now < c.exp → decode (encode c) now ≡ some c

abbrev pub claims : ℕ → ℕ → User → Claims
claims now minutes u = record { sub = u.id; role = u.role; iat = now; exp = now + minutes * 60 }

unfoldable pub create_access_token : Crypto → ℕ → ℕ → User → Text
create_access_token c now minutes u = c.encode (claims now minutes u)

pub record TokenResponse : Type 0 where
  pub access_token : Text
  pub expires_in : ℕ

-- The email column is CITEXT: `same_email` is its comparison.
unfoldable pub find_email : (Text → Text → Bool) → Text → List User → Option User
find_email same_email m [] = none
find_email same_email m (u ∷ us) =
    if same_email u.email m then some u else find_email same_email m us

-- POST /api/v1/auth/login
unfoldable pub login :
    Crypto → (Text → Text → Bool) → ℕ → ℕ → Text → Text → Db → Outcome TokenResponse
unfolding create_access_token
login c same_email now minutes email password s = elim (find_email same_email email s.users) [
  | none ↦ raised (http_exception 401 invalid_login)
  | some u ↦
      if not (c.check password u.password_hash)
      then raised (http_exception 401 invalid_login)
      else if not u.is_active
      then raised (http_exception 401 account_disabled)
      else ok
          (record { access_token = create_access_token c now minutes u; expires_in = minutes * 60 })
]

abbrev pub active : Option User → Outcome User
active none = raised (http_exception 401 not_authenticated)
active (some u) = if u.is_active then ok u else raised (http_exception 401 not_authenticated)

-- The dependency behind `CurrentUser`: the bearer token, if there is one.
unfoldable pub get_current_user : Crypto → ℕ → Option Text → Db → Outcome User
get_current_user c now none s = raised (http_exception 401 not_authenticated)
get_current_user c now (some token) s = elim (c.decode token now) [
  | none ↦ raised (http_exception 401 not_authenticated)
  | some k ↦ active (find_user k.sub s.users)
]

-- `require_role(*allowed)`
unfoldable pub require_role : List UserRole → User → Outcome User
require_role allowed u =
    if any (role_eq u.role) allowed then ok u else raised (http_exception 403 requires_role)

abbrev pub when_allowed {ℓ} : {A : Type 0} {B : Type ℓ} → Outcome B → Action A → Action A
when_allowed (ok _) m s = m s
when_allowed (raised x) m s = (raised x, s)

-- A route with `dependencies=[Depends(require_role(*allowed))]`.
unfoldable pub guarded : {A : Type 0} → List UserRole → User → Action A → Action A
guarded allowed current m = when_allowed (require_role allowed current) m
