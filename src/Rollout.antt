-- ===== src/Rollout.antt =====
-- The whole migration while the API serves requests: requests, backfill batches, phase changes through
-- PUT /api/v1/admin/migration (app/routers/admin.py) and Alembic revisions, in any order that the
-- documented procedure allows (docs/MIGRATION.md).
pub mod Admin
pub mod Completion
pub mod Steps
pub mod Live
pub mod Finish
use restaurant_reservation_s.Prelude.{
  List, ℕ, ◌≡◌, refl, sym, subst, Bool, true, false, none, some, arith, Option-cases, inl, inr,
}
use restaurant_reservation_s.Http.{Outcome, ok, raised, http_exception, cannot_enter_phase}
use restaurant_reservation_s.Database.{Db, Columns}
use restaurant_reservation_s.Models.Reservation.{Reservation}
use restaurant_reservation_s.Backfill.{fill}
use restaurant_reservation_s.Migration.Phase.{Phase, new_only}
use restaurant_reservation_s.Migration.Schema.{schema_state, refusal}
use restaurant_reservation_s.Migration.Fit.{Fits}
use restaurant_reservation_s.Migration.Revisions.{upgrade_0002, upgrade_0003, upgrade_0004}
use restaurant_reservation_s.Migration.Gate.{
  IsRevision, at_0001, at_0002, at_0003, at_0004, refusal-Fits,
}
use restaurant_reservation_s.Reservations.Invariant.{Step, Step-columns}

-- PUT /admin/migration: the phase that the process is in afterwards, and the answer.
unfoldable pub put_migration : (ℕ → Bool) → Phase → Phase → Db → Outcome (Unit {0}) × Phase
put_migration pg_space target current s = elim (refusal target (schema_state pg_space s)) [
  | none ↦ (ok tt, target)
  | some _ ↦ (raised (http_exception 409 cannot_enter_phase), current)
]

-- The running system: the phase of the process and the database.
pub record System : Type 0 where
  pub phase : Phase
  pub db : Db

abbrev pub serving : Phase → Db → System
serving p s = record { phase = p; db = s }

-- Requests and batches of the backfill may come at any time. 0002 runs on the initial schema, 0003
-- after 0002, and 0004 after 0003 once the process is in phase new_only.
pub data Move (x : System) : System → Type 0 where
  request : (t : Db) → Step x.db t → Move x (record { phase = x.phase; db = t })
  change_phase :
      (pg_space : ℕ → Bool) (target : Phase)
      → Move x (record { phase = (put_migration pg_space target x.phase x.db).1; db = x.db })
  backfill :
      (xid : ℕ) (b : List Reservation)
      → Move x (record {
        phase = x.phase;
        db = record x.db { reservations = fill xid b x.db.reservations };
      })
  expand :
      x.db.columns.guest_name_present ≡ true
      → x.db.columns.guest_name_nullable ≡ false
      → x.db.columns.new_columns_present ≡ false
      → Move x (record { phase = x.phase; db = upgrade_0002 x.db })
  relax :
      x.db.columns.guest_name_present ≡ true
      → x.db.columns.new_columns_present ≡ true
      → Move x (record { phase = x.phase; db = upgrade_0003 x.db })
  contract :
      x.phase ≡ new_only
      → (upgrade_0004 x.db).0 ≡ ok tt
      → Move x (record { phase = x.phase; db = (upgrade_0004 x.db).1 })

pub data Rollout (x : System) : System → Type 0 where
  start : Rollout x x
  later : {y z : System} → Rollout x y → Move y z → Rollout x z

-- The schema is that of a revision, and the phase fits it.
pub record IsServing (p : Phase) (cs : Columns) : Type 0 where
  pub revision : IsRevision cs
  pub fits : Fits p cs

expanded-IsServing :
    (p : Phase) (s : Db)
    → s.columns.guest_name_present ≡ true
    → s.columns.guest_name_nullable ≡ false
    → s.columns.new_columns_present ≡ false
    → Fits p s.columns
    → IsServing p (upgrade_0002 s).columns
unfolding upgrade_0002
expanded-IsServing p s a b c f = record {
  revision = at_0002 a b refl refl refl;
  fits = ground arith;
}

relaxed-IsServing :
    (p : Phase) (s : Db)
    → s.columns.guest_name_present ≡ true
    → s.columns.new_columns_present ≡ true
    → IsServing p s.columns
    → IsServing p (upgrade_0003 s).columns
unfolding upgrade_0003
relaxed-IsServing p s a b v = record { revision = go v.revision; fits = go_fits v.fits }
  where
    go : IsRevision s.columns → IsRevision (upgrade_0003 s).columns
    go (at_0001 x y z) = cc
    go (at_0002 x y z u w) = at_0003 x refl z u w
    go (at_0003 x y z u w) = at_0003 x refl z u w
    go (at_0004 x y) = cc

    go_fits : Fits p s.columns → Fits p (upgrade_0003 s).columns
    go_fits f = ground arith

Fits-new_only :
    (cs : Columns)
    → cs.guest_name_present ≡ false
    → cs.new_columns_present ≡ true
    → Fits new_only cs
Fits-new_only cs a b = ground arith

contracted-IsServing :
    (s : Db)
    → IsServing new_only s.columns
    → (upgrade_0004 s).0 ≡ ok tt
    → IsServing new_only (upgrade_0004 s).1.columns
unfolding upgrade_0004
contracted-IsServing s v h =
    let dropped : (upgrade_0004 s).1.columns.guest_name_present ≡ false = ground arith in
    let kept : (upgrade_0004 s).1.columns.new_columns_present ≡ true = ground arith in
    record {
      revision = at_0004 dropped kept;
      fits = Fits-new_only (upgrade_0004 s).1.columns dropped kept;
    }

Move-IsServing :
    (x y : System) → IsServing x.phase x.db.columns → Move x y → IsServing y.phase y.db.columns
unfolding put_migration
Move-IsServing x y v (request t st) = subst (IsServing x.phase) (sym (Step-columns x.db t st)) v
Move-IsServing x y v (change_phase sp target) =
    elim (Option-cases (refusal target (schema_state sp x.db))) [
      | inl admitted ↦
          rw (admitted, put_migration)
            (record {
              revision = v.revision;
              fits = refusal-Fits sp target x.db v.revision admitted;
            })
      | inr (reason, refused) ↦ rw (refused, put_migration) v
    ]
Move-IsServing x y v (backfill xid b) = v
Move-IsServing x y v (expand a b c) = expanded-IsServing x.phase x.db a b c v.fits
Move-IsServing x y v (relax a b) = relaxed-IsServing x.phase x.db a b v
Move-IsServing x y v (contract a b) =
    subst (λ p. IsServing p (upgrade_0004 x.db).1.columns) (sym a)
      (contracted-IsServing x.db (subst (λ p. IsServing p x.db.columns) a v) b)

-- Zero downtime: from a system whose schema is that of a revision and whose phase fits it, whatever
-- requests, phase changes, batches of the backfill and upgrades in the documented order follow, the
-- phase still fits the schema: every column that is read or written is there, and no NOT NULL column is left out.
pub Rollout-IsServing :
    (x y : System) → IsServing x.phase x.db.columns → Rollout x y → IsServing y.phase y.db.columns
Rollout-IsServing x y v start = v
Rollout-IsServing x y v (later {y = w} r m) = Move-IsServing w y (Rollout-IsServing x w v r) m
