-- ===== src/Tests/Seeding.antt =====
-- The theorem on the reservations of the seed script, with two attempts at the same slot and one at the
-- next.
use restaurant_reservation_s.Prelude.{ℕ, false}
use restaurant_reservation_s.Seed.{Draw}
use restaurant_reservation_s.Tests.World.{ana}

abbrev draw : ℕ → Draw
draw slot = record {
  restaurant_id = 1;
  table_id = 3;
  day = 3;
  slot = slot;
  name = ana;
  user_id = 7;
  party_size = 2;
  is_cancelled = false;
}
