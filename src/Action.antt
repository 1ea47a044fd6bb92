-- ===== src/Action.antt =====
-- A handler: it reads and changes the database, and returns a value or raises. What it has committed
-- stays committed when it raises later.
pub mod Effects
use restaurant_reservation_s.Prelude.{Bool, true, false, Option, none, some, ℕ}
use restaurant_reservation_s.Http.{Outcome, ok, raised, http_exception, Detail}
use restaurant_reservation_s.Database.{Db}

abbrev pub Action : Type 0 → Type 0
Action A = Db → Outcome A × Db

infixl 5 ◌>>=◌ ◌>>◌
abbrev pub ◌>>=◌ : {A B : Type 0} → Action A → (A → Action B) → Action B
◌>>=◌ m f s = let (r, s') = m s in elim r [ ok a ↦ f a s' | raised x ↦ (raised x, s') ]

abbrev pub ◌>>◌ : {B : Type 0} → Action (Unit {0}) → Action B → Action B
m >> k = m >>= λ _. k

-- `if not test: raise HTTPException(status, detail)`
abbrev pub require : Bool → ℕ → Detail → Action (Unit {0})
require true status detail s = (ok tt, s)
require false status detail s = (raised (http_exception status detail), s)

module _ {A : Type 0} where
  abbrev pub pure : A → Action A
  pure a s = (ok a, s)

  -- A SELECT that finds at most one row, and `if row is None: raise HTTPException(status, detail)`.
  abbrev pub find_or_raise : (Db → Option A) → ℕ → Detail → Action A
  find_or_raise q status detail s = elim (q s) [
    | none ↦ (raised (http_exception status detail), s)
    | some a ↦ (ok a, s)
  ]

  -- Code that only reads the database.
  abbrev pub reading : (Db → Outcome A) → Action A
  reading f s = (f s, s)
