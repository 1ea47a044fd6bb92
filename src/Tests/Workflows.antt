-- ===== src/Tests/Workflows.antt =====
-- The theorems on the migration, the orders, the accounts and the names, at the small world.
use restaurant_reservation_s.Prelude.{
  ℕ, List, ◌+◌, ◌*◌, ◌^◌, ◌≤◌, ◌<◌, ◌≡◌, refl, Bool, true, false, none, some, arith, ◌⊎◌, length,
  leb,
}
use restaurant_reservation_s.Http.{ok, raised, http_exception, order_not_found, illegal_transition}
use restaurant_reservation_s.Models.Order.{Order, preparing}
use restaurant_reservation_s.Database.{Db, find_order}
use restaurant_reservation_s.Migration.Phase.{legacy, dual_write}
use restaurant_reservation_s.Migration.Schema.{
  schema_state, refusal, is_allowed, reconcile_with_schema,
}
use restaurant_reservation_s.Migration.Fit.{Fits}
use restaurant_reservation_s.Migration.Revisions.{upgrade_0002}
use restaurant_reservation_s.Migration.Gate.{
  IsRevision, at_0001, refusal-Fits, reconcile_with_schema-allowed,
}
use restaurant_reservation_s.Rollout.{
  System, Rollout, start, later, expand, change_phase, put_migration, IsServing, Rollout-IsServing,
}
use restaurant_reservation_s.Orders.Status.{advance_status}
use restaurant_reservation_s.Orders.Lifecycle.{Lifecycle, OnlyMoved, advance_status-Lifecycle}
use restaurant_reservation_s.Orders.Money.{quantize}
use restaurant_reservation_s.Orders.Rounding.{quantize-near}
use restaurant_reservation_s.App.{Settings, lifespan}
use restaurant_reservation_s.App.Start.{lifespan-IsServing}
use restaurant_reservation_s.Paging.{paged}
use restaurant_reservation_s.Paging.Cover.{first_pages, paged-cover}
use restaurant_reservation_s.Tests.World.{before, ana}

before-IsRevision : IsRevision before.columns
before-IsRevision = at_0001 refl refl refl

abbrev pg_space : ℕ → Bool
pg_space c = leb c 32

legacy-admitted : refusal legacy (schema_state pg_space before) ≡ none
unfolding refusal schema_state
legacy-admitted = refl

refusal-Fits_example : Fits legacy before.columns
refusal-Fits_example = refusal-Fits pg_space legacy before before-IsRevision legacy-admitted

abbrev expanded : Db
expanded = upgrade_0002 before

legacy-is_allowed : is_allowed legacy (schema_state pg_space before) ≡ true
unfolding refusal schema_state
legacy-is_allowed = refl

-- A process that was configured for dual_write before 0002 has run.
reconcile_with_schema-allowed_example :
    (is_allowed
        (reconcile_with_schema dual_write (schema_state pg_space before))
        (schema_state pg_space before)
      ≡ true)
    × ((is_allowed dual_write (schema_state pg_space before) ≡ false)
        ⊎ (reconcile_with_schema dual_write (schema_state pg_space before) ≡ dual_write))
reconcile_with_schema-allowed_example =
    reconcile_with_schema-allowed dual_write legacy (schema_state pg_space before) legacy-is_allowed

abbrev first_system : System
first_system = record { phase = legacy; db = before }

abbrev expanded_system : System
expanded_system = record { phase = legacy; db = expanded }

abbrev dual_system : System
dual_system = record {
  phase = (put_migration pg_space dual_write legacy expanded).1;
  db = expanded;
}

first_system-IsServing : IsServing legacy before.columns
first_system-IsServing = record {
  revision = before-IsRevision;
  fits = refusal-Fits pg_space legacy before before-IsRevision legacy-admitted;
}

dual_system-Rollout : Rollout first_system dual_system
dual_system-Rollout =
    later {y = expanded_system} (later {y = first_system} start (expand refl refl refl))
      (change_phase pg_space dual_write)

Rollout-IsServing_example : IsServing dual_system.phase expanded.columns
Rollout-IsServing_example =
    Rollout-IsServing first_system dual_system first_system-IsServing dual_system-Rollout

advance_status-Lifecycle_example :
    ((find_order 4 before.orders ≡ none)
      × (advance_status 4 preparing before ≡ (raised (http_exception 404 order_not_found), before)))
    ⊎ ((o : Order) × (find_order 4 before.orders ≡ some o)
        × ((Lifecycle o.status preparing
              × ((after : List Order) × (advance_status 4 preparing before
                    ≡ (ok (record o { status = preparing }), record before { orders = after }))
                  × OnlyMoved 4 preparing before.orders after))
            ⊎ ((Lifecycle o.status preparing → ⊥)
                × (advance_status 4 preparing before
                    ≡ (raised (http_exception 409 illegal_transition), before)))))
advance_status-Lifecycle_example = advance_status-Lifecycle 4 preparing before

-- 12.345 is 1234 hundredths.
quantize-near_example :
    (2 * (quantize (record { coefficient = 12345; places = 3 }) * 10 ^ 3)
      ≤ 2 * (12345 * 100) + 10 ^ 3)
    × (2 * (12345 * 100)
        ≤ 2 * (quantize (record { coefficient = 12345; places = 3 }) * 10 ^ 3) + 10 ^ 3)
quantize-near_example = quantize-near 12345 3

-- Settings that name dual_write before 0002 has run: the process starts in legacy, and 0002 follows.
abbrev settings : Settings
settings = record {
  postgres_password = ana;
  mongo_password = ana;
  jwt_secret = ana;
  jwt_expire_minutes = 60;
  name_migration_phase = dual_write;
}

abbrev started : System
started = record { phase = lifespan pg_space true settings before; db = before }

lifespan-IsServing_example : IsServing started.phase expanded.columns
lifespan-IsServing_example =
    lifespan-IsServing pg_space settings legacy before
      (record { phase = started.phase; db = expanded }) before-IsRevision legacy-is_allowed
      (later {y = started} start (expand refl refl refl))

paged-cover_example :
    (first_pages (paged 1 2 ana).pages 2 ana ≡ ana)
    × (length (paged 1 2 ana).items ≤ 2)
    × ((paged 1 2 ana).pages * 2 < length ana + 2)
paged-cover_example = paged-cover 1 2 ana (omega arith)
