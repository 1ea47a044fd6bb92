-- ===== src/App.antt =====
-- The settings and the start of a process (app/config.py, app/main.py).
pub mod Start
use restaurant_reservation_s.Prelude.{
  ℕ, ◌+◌, ◌≡◌, Bool, true, false, not, ◌&&◌, ◌||◌, List, [], ◌∷◌, Option, none, some, ◌==◌, leb,
  length, map, if◌then◌else◌,
}
use restaurant_reservation_s.Names.{Text}
use restaurant_reservation_s.Database.{Db}
use restaurant_reservation_s.Migration.Phase.{Phase}
use restaurant_reservation_s.Migration.Schema.{schema_state, reconcile_with_schema}

-- The settings with a rule of their own, and those that a model of another part uses.
pub record Settings : Type 0 where
  pub postgres_password : Text
  pub mongo_password : Text
  pub jwt_secret : Text
  pub jwt_expire_minutes : ℕ
  pub name_migration_phase : Phase

-- `str.lower` on the letters A to Z. No other character becomes a letter of the two placeholders.
abbrev pub lower : ℕ → ℕ
lower c = if leb 65 c && leb c 90 then c + 32 else c

abbrev pub is_prefix : Text → Text → Bool
is_prefix [] s = true
is_prefix (c ∷ p) [] = false
is_prefix (c ∷ p) (d ∷ s) = c == d && is_prefix p s

-- `p in s`
unfoldable pub occurs : Text → Text → Bool
occurs p [] = is_prefix p []
occurs p (c ∷ s) = is_prefix p (c ∷ s) || occurs p s

abbrev pub change_me : Text
change_me = b'c' ∷ b'h' ∷ b'a' ∷ b'n' ∷ b'g' ∷ b'e' ∷ b'_' ∷ b'm' ∷ b'e' ∷ []

abbrev pub dev_only : Text
dev_only = b'd' ∷ b'e' ∷ b'v' ∷ b'_' ∷ b'o' ∷ b'n' ∷ b'l' ∷ b'y' ∷ []

-- The value, or none for the ValueError.
unfoldable pub reject_placeholder_secret : Text → Option Text
unfolding occurs
reject_placeholder_secret v =
    if occurs change_me (map lower v) || occurs dev_only (map lower v) then none else some v

abbrev pub is_some : Option Text → Bool
is_some none = false
is_some (some v) = true

-- `Settings()`: none when a value is refused, and the process does not start.
unfoldable pub validate_settings : Settings → Option Settings
unfolding reject_placeholder_secret
validate_settings c =
    if leb 1 (length c.postgres_password)
      && leb 1 (length c.mongo_password)
      && leb 32 (length c.jwt_secret)
      && is_some (reject_placeholder_secret c.jwt_secret)
    then some c
    else none

-- `lifespan`: the phase in which the process serves. An exception of either database is logged, and
-- the process starts all the same; without PostgreSQL it stays in the phase of the settings.
unfoldable pub lifespan : (ℕ → Bool) → Bool → Settings → Db → Phase
lifespan pg_space postgres_up c s =
    if postgres_up
    then reconcile_with_schema c.name_migration_phase (schema_state pg_space s)
    else c.name_migration_phase

pub record Health : Type 0 where
  pub is_ok : Bool
  pub postgres : Bool
  pub mongodb : Bool
  pub name_migration_phase : Phase

-- GET /health
unfoldable pub health : Bool → Bool → Phase → Health
health pg_ok mongo_ok current = record {
  is_ok = pg_ok && mongo_ok;
  postgres = pg_ok;
  mongodb = mongo_ok;
  name_migration_phase = current;
}
