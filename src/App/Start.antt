-- ===== src/App/Start.antt =====
-- A process that starts in the middle of the migration (app/main.py, lifespan, and app/migration.py,
-- reconcile_with_schema).
use restaurant_reservation_s.Prelude.{ℕ, ◌≡◌, Bool, true, none, Option-cases, inl, inr}
use restaurant_reservation_s.Database.{Db}
use restaurant_reservation_s.Migration.Phase.{Phase}
use restaurant_reservation_s.Migration.Schema.{
  SchemaState, schema_state, refusal, is_allowed, reconcile_with_schema,
}
use restaurant_reservation_s.Migration.Gate.{
  IsRevision, refusal-Fits, reconcile_with_schema-allowed,
}
use restaurant_reservation_s.Rollout.{System, serving, Rollout, IsServing, Rollout-IsServing}
use restaurant_reservation_s.App.{Settings, lifespan}

is_allowed-refusal :
    (p : Phase) (state : SchemaState) → is_allowed p state ≡ true → refusal p state ≡ none
is_allowed-refusal p state h = elim (Option-cases (refusal p state)) [
  | inl admitted ↦ admitted
  | inr (reason, refused) ↦ cc (h, refused)
]

-- A process may start at any time of the migration, whatever phase its settings name: if PostgreSQL
-- answers, the schema is that of a revision and the gate admits some phase, then it starts in a phase
-- that fits the schema, and serves without a missing column from then on, whatever requests, phase
-- changes, batches of the backfill and upgrades in the documented order follow.
pub lifespan-IsServing :
    (pg_space : ℕ → Bool) (c : Settings) (p : Phase) (s : Db) (y : System)
    → IsRevision s.columns
    → is_allowed p (schema_state pg_space s) ≡ true
    → Rollout (serving (lifespan pg_space true c s) s) y
    → IsServing y.phase y.db.columns
unfolding lifespan
lifespan-IsServing pg_space c p s y revision allowed path =
    let state = schema_state pg_space s in
    let start = reconcile_with_schema c.name_migration_phase state in
    let admitted =
      is_allowed-refusal start state
        (reconcile_with_schema-allowed c.name_migration_phase p state allowed).0 in
    Rollout-IsServing (serving start s) y
      (record { revision = revision; fits = refusal-Fits pg_space start s revision admitted }) path
