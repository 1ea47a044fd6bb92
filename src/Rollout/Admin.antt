-- ===== src/Rollout/Admin.antt =====
-- GET and PUT /api/v1/admin/migration (app/routers/admin.py).
use restaurant_reservation_s.Prelude.{
  ◌∙◌, ℕ, ◌≡◌, refl, Bool, true, false, List, [], ◌∷◌, any, select, arith, if◌then◌else◌,
}
use restaurant_reservation_s.Http.{Outcome, ok, raised, http_exception, cannot_enter_phase}
use restaurant_reservation_s.Models.User.{User, UserRole, admin, customer, staff}
use restaurant_reservation_s.Database.{Db}
use restaurant_reservation_s.Security.{require_role}
use restaurant_reservation_s.Migration.Phase.{
  Phase, legacy, dual_write, read_new, new_only, NameColumn, write_columns, read_columns,
}
use restaurant_reservation_s.Migration.Schema.{SchemaState, schema_state, is_allowed}
use restaurant_reservation_s.Rollout.{put_migration}

pub record MigrationState : Type 0 where
  pub phase : Phase
  pub writes : List NameColumn
  pub reads : List NameColumn
  pub schema : SchemaState
  pub allowed_phases : List Phase

-- `_state`
unfoldable pub migration_state : (ℕ → Bool) → Phase → Db → MigrationState
migration_state pg_space current s =
    let state = schema_state pg_space s in
    record {
      phase = current;
      writes = write_columns current;
      reads = read_columns current;
      schema = state;
      allowed_phases =
          select (λ p. is_allowed p state) (legacy ∷ dual_write ∷ read_new ∷ new_only ∷ []);
    }

-- The router's dependency: every route is for admins.
abbrev pub for_admin : {A : Type 0} → Outcome User → Phase → Outcome A × Phase → Outcome A × Phase
for_admin (ok _) current r = r
for_admin (raised x) current r = (raised x, current)

abbrev pub with_state :
    (ℕ → Bool) → Db → Outcome (Unit {0}) × Phase → Outcome MigrationState × Phase
with_state pg_space s (raised x, p) = (raised x, p)
with_state pg_space s (ok _, p) = (ok (migration_state pg_space p s), p)

-- The answer and the phase of the process afterwards.
unfoldable pub get_migration : (ℕ → Bool) → User → Phase → Db → Outcome MigrationState × Phase
get_migration pg_space user current s =
    for_admin (require_role (admin ∷ []) user) current
      (ok (migration_state pg_space current s), current)

unfoldable pub change_phase :
    (ℕ → Bool) → Phase → User → Phase → Db → Outcome MigrationState × Phase
change_phase pg_space target user current s =
    for_admin (require_role (admin ∷ []) user) current
      (with_state pg_space s (put_migration pg_space target current s))

abbrev pub phase_eq : Phase → Phase → Bool
phase_eq legacy legacy = true
phase_eq dual_write dual_write = true
phase_eq read_new read_new = true
phase_eq new_only new_only = true
phase_eq _ _ = false

allowed_phases-any :
    (pg_space : ℕ → Bool) (target current : Phase) (s : Db)
    → any (phase_eq target) (migration_state pg_space current s).allowed_phases
      ≡ is_allowed target (schema_state pg_space s)
unfolding migration_state
allowed_phases-any pg_space legacy current s = ground arith
allowed_phases-any pg_space dual_write current s = ground arith
allowed_phases-any pg_space read_new current s = ground arith
allowed_phases-any pg_space new_only current s = ground arith

put_migration-allowed :
    (pg_space : ℕ → Bool) (target current : Phase) (s : Db)
    → put_migration pg_space target current s ≡ (
        if is_allowed target (schema_state pg_space s)
        then (ok tt, target)
        else (raised (http_exception 409 cannot_enter_phase), current))
unfolding put_migration
put_migration-allowed pg_space target current s = ground arith

with_state-phase :
    (pg_space : ℕ → Bool) (s : Db) (r : Outcome (Unit {0}) × Phase)
    → (with_state pg_space s r).1 ≡ r.1
with_state-phase pg_space s (ok a, p) = refl
with_state-phase pg_space s (raised x, p) = refl

put_migration-phase :
    (pg_space : ℕ → Bool) (target current : Phase) (s : Db)
    → (put_migration pg_space target current s).1 ≡ (
        if any (phase_eq target) (migration_state pg_space current s).allowed_phases
        then target
        else current)
put_migration-phase pg_space target current s =
    let listed = allowed_phases-any pg_space target current s in
    let put = put_migration-allowed pg_space target current s in ground (arith, listed, put)

for_admin-phase :
    {A : Type 0} (role : UserRole) (user : User) (current : Phase) (r : Outcome A × Phase)
    → user.role ≡ role
    → (for_admin (require_role (admin ∷ []) user) current r).1
      ≡ elim role [ admin ↦ r.1 | staff ↦ current | customer ↦ current ]
unfolding require_role
for_admin-phase admin user current r h = rw h refl
for_admin-phase staff user current r h = rw h refl
for_admin-phase customer user current r h = rw h refl

-- An admin changes the phase to exactly the phases that GET /admin/migration lists as allowed; for any
-- other phase, and for any other caller, it stays as it is.
pub change_phase-allowed_phases :
    (pg_space : ℕ → Bool) (target current : Phase) (user : User) (s : Db)
    → let listed = any (phase_eq target) (migration_state pg_space current s).allowed_phases in
      (change_phase pg_space target user current s).1 ≡ elim user.role [
        | admin ↦ if listed then target else current
        | staff ↦ current
        | customer ↦ current
      ]
unfolding change_phase
change_phase-allowed_phases pg_space target current user s = go user.role refl
  where
    go :
        (role : UserRole)
        → user.role ≡ role
        → (change_phase pg_space target user current s).1 ≡ elim role [
          | admin ↦
              if any (phase_eq target) (migration_state pg_space current s).allowed_phases
              then target
              else current
          | staff ↦ current
          | customer ↦ current
        ]
    go admin h =
        for_admin-phase admin user current _ h
        ∙ with_state-phase pg_space s (put_migration pg_space target current s)
        ∙ put_migration-phase pg_space target current s
    go staff h = for_admin-phase staff user current _ h
    go customer h = for_admin-phase customer user current _ h
