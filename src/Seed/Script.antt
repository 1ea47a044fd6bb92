-- ===== src/Seed/Script.antt =====
-- The counts and the command line of scripts/seed.py (reset_postgres, verify and main). The process
-- answers with its exit code.
use restaurant_reservation_s.Prelude.{
  ℕ, ◌+◌, Bool, true, false, not, ◌&&◌, List, [], ◌∷◌, none, some, ◌==◌, leb, length, if◌then◌else◌,
}
use restaurant_reservation_s.Models.Order.{Order}
use restaurant_reservation_s.Database.{Db}
use restaurant_reservation_s.Seed.Postgres.{Digests, Draws, seed_postgres}
use restaurant_reservation_s.Seed.Documents.{
  DocumentDraws, Collections, seed_mongo, reset_mongo, mongo_total,
}

-- TRUNCATE ... RESTART IDENTITY CASCADE
unfoldable pub reset_postgres : Db → Db
reset_postgres s = record s {
  users = [];
  restaurants = [];
  tables = [];
  reservations = [];
  orders = [];
}

unfoldable pub count_items : List Order → ℕ
count_items [] = 0
count_items (o ∷ os) = length o.items + count_items os

unfoldable pub pg_total : Db → ℕ
pg_total s =
    length s.users
    + length s.restaurants
    + length s.tables
    + length s.reservations
    + length s.orders
    + count_items s.orders

abbrev pub min_pg_rows : ℕ
min_pg_rows = 1000

abbrev pub min_mongo_docs : ℕ
min_mongo_docs = 1000

unfoldable pub verify : Db → Collections → Bool
verify s m = leb min_pg_rows (pg_total s) && leb min_mongo_docs (mongo_total m)

-- 0 if ok else 1
abbrev pub exit_code : Bool → ℕ
exit_code true = 0
exit_code false = 1

pub record Arguments : Type 0 where
  pub reset : Bool
  pub verify : Bool
  pub reservations : ℕ

-- Both databases, and what the process is given beside the command line.
pub record Stores : Type 0 where
  pub postgres : Db
  pub mongo : Collections

pub record Inputs : Type 0 where
  pub digests : Digests
  pub draws : Draws
  pub documents : DocumentDraws
  pub first : ℕ

-- `if args.reset`
unfoldable pub prepared : Arguments → Stores → Stores
prepared a s =
    if a.reset
    then record { postgres = reset_postgres s.postgres; mongo = reset_mongo s.mongo }
    else s

-- seed_postgres, seed_mongo and the verification. An exception ends the process with code 1, and
-- nothing of seed_postgres is committed.
unfoldable pub seed : Inputs → ℕ → Stores → ℕ × Stores
seed i n s = elim (seed_postgres i.digests i.draws i.first n s.postgres) [
  | none ↦ (1, s)
  | some t ↦ (
    exit_code (verify t (seed_mongo i.digests i.documents s.mongo)),
    record { postgres = t; mongo = seed_mongo i.digests i.documents s.mongo },
  )
]

unfoldable pub main : Inputs → Arguments → Stores → ℕ × Stores
main i a s =
    if a.verify
    then (exit_code (verify s.postgres s.mongo), s)
    else if not (length (prepared a s).postgres.users == 0) && not a.reset
    then (0, prepared a s)
    else seed i a.reservations (prepared a s)
