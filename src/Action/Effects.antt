-- ===== src/Action/Effects.antt =====
-- Actions that only read, and how the database goes through a sequence of actions.
use restaurant_reservation_s.Prelude.{
  ◌≡◌, refl, ap, arith, Bool, true, false, Option, ℕ, subst, sym,
}
use restaurant_reservation_s.Http.{Outcome, ok, raised, Detail, Exception}
use restaurant_reservation_s.Database.{Db}
use restaurant_reservation_s.Action.{Action, ◌>>=◌, require, find_or_raise}

-- The action leaves the database as it was.
abbrev pub Reads : {A : Type 0} → Action A → Type 0
Reads m = (s : Db) → (m s).1 ≡ s

abbrev bound : {A B : Type 0} → (A → Action B) → Outcome A → Db → Outcome B × Db
bound f (ok a) s = f a s
bound f (raised x) s = (raised x, s)

bound-eq :
    {A B : Type 0} (f : A → Action B) (r : Outcome A) (s : Db)
    → elim r [ ok a ↦ f a s | raised x ↦ (raised x, s) ] ≡ bound f r s
bound-eq f (ok a) s = refl
bound-eq f (raised x) s = refl

bound-Reads :
    {A B : Type 0} (f : A → Action B) (r : Outcome A) (s : Db)
    → ((a : A) → Reads (f a))
    → (bound f r s).1 ≡ s
bound-Reads f (ok a) s h = h a s
bound-Reads f (raised x) s h = refl

bound-cases :
    (P : Db → Type 0) {A B : Type 0} (f : A → Action B) (r : Outcome A) (s : Db)
    → P s
    → ((a : A) → r ≡ ok a → P (f a s).1)
    → P (bound f r s).1
bound-cases P f (ok a) s p h = h a refl
bound-cases P f (raised x) s p h = p

-- What reads after an action changes nothing more.
pub then-Reads :
    {A B : Type 0} (m : Action A) (f : A → Action B) (s : Db)
    → ((a : A) → Reads (f a))
    → ((m >>= f) s).1 ≡ (m s).1
then-Reads m f s h = rw (bound-eq f (m s).0 (m s).1) (bound-Reads f (m s).0 (m s).1 h)

-- What comes after reading starts from the same database.
pub read-then :
    (P : Db → Type 0) {A B : Type 0} (m : Action A) (f : A → Action B) (s : Db)
    → (m s).1 ≡ s
    → P s
    → ((a : A) → (m s).0 ≡ ok a → P (f a s).1)
    → P ((m >>= f) s).1
read-then P m f s same p h =
    rw (bound-eq f (m s).0 (m s).1)
      (subst (λ t. P (bound f (m s).0 t).1) (sym same) (bound-cases P f (m s).0 s p h))

pub require-Reads : (b : Bool) (status : ℕ) (detail : Detail) → Reads (require b status detail)
require-Reads true status detail s = refl
require-Reads false status detail s = refl

pub find_or_raise-Reads :
    {A : Type 0} (q : Db → Option A) (status : ℕ) (detail : Detail)
    → Reads (find_or_raise q status detail)
find_or_raise-Reads q status detail s = ground arith

-- What follows an action that raises is not run; what follows one that succeeds starts from its
-- result.
pub >>=-raised :
    {A B : Type 0} (m : Action A) (f : A → Action B) (s t : Db) (x : Exception)
    → m s ≡ (raised x, t)
    → (m >>= f) s ≡ (raised x, t)
>>=-raised {A} m f s t x h =
    rw (bound-eq f (m s).0 (m s).1) (ap (λ (z : Outcome A × Db). bound f z.0 z.1) h)

pub >>=-ok :
    {A B : Type 0} (m : Action A) (f : A → Action B) (s t : Db) (a : A)
    → m s ≡ (ok a, t)
    → (m >>= f) s ≡ f a t
>>=-ok {A} m f s t a h =
    rw (bound-eq f (m s).0 (m s).1) (ap (λ (z : Outcome A × Db). bound f z.0 z.1) h)
