-- ===== src/Migration/Gate.antt =====
-- The gate before a phase change (app/migration.py, `refusal`) against the schemas that the Alembic
-- revisions produce.
use restaurant_reservation_s.Prelude.{
  ℕ, ◌≡◌, refl, Bool, true, false, List, [], ◌∷◌, none, All, arith, ◌⊎◌, inl, inr, Bool-cases,
}
use restaurant_reservation_s.Database.{Db, Columns}
use restaurant_reservation_s.Migration.Phase.{Phase, legacy, dual_write, read_new, new_only}
use restaurant_reservation_s.Migration.Schema.{
  SchemaState, schema_state, refusal, is_allowed, first_allowed, reconcile_with_schema,
}
use restaurant_reservation_s.Migration.Fit.{Fits}

-- The name columns after 0001, 0002, 0003 and 0004.
pub data IsRevision (cs : Columns) : Type 0 where
  at_0001 :
      cs.guest_name_present ≡ true
      → cs.guest_name_nullable ≡ false
      → cs.new_columns_present ≡ false
      → IsRevision cs
  at_0002 :
      cs.guest_name_present ≡ true
      → cs.guest_name_nullable ≡ false
      → cs.new_columns_present ≡ true
      → cs.first_name_nullable ≡ true
      → cs.last_name_nullable ≡ true
      → IsRevision cs
  at_0003 :
      cs.guest_name_present ≡ true
      → cs.guest_name_nullable ≡ true
      → cs.new_columns_present ≡ true
      → cs.first_name_nullable ≡ true
      → cs.last_name_nullable ≡ true
      → IsRevision cs
  at_0004 : cs.guest_name_present ≡ false → cs.new_columns_present ≡ true → IsRevision cs

-- A phase that the gate admits, on the schema of a revision, fits that schema: every column that it
-- writes or reads is there, and no NOT NULL column is left out of its INSERTs.
pub refusal-Fits :
    (pg_space : ℕ → Bool) (p : Phase) (s : Db)
    → IsRevision s.columns
    → refusal p (schema_state pg_space s) ≡ none
    → Fits p s.columns
unfolding refusal schema_state
refusal-Fits sp p s (at_0001 a b c) h = ground arith
refusal-Fits sp p s (at_0002 a b c d f) h = ground arith
refusal-Fits sp p s (at_0003 a b c d f) h = ground arith
refusal-Fits sp p s (at_0004 a b) h = ground arith

-- `first_allowed` gives a phase that the gate admits, if it admits one of the candidates.
first_allowed-lem :
    (ps : List Phase) (state : SchemaState) (current : Phase)
    → All (λ p. is_allowed p state ≡ false) ps
      ⊎ (is_allowed (first_allowed ps state current) state ≡ true)
unfolding first_allowed
first_allowed-lem [] state current = inl tt
first_allowed-lem (p ∷ ps) state current = elim (Bool-cases (is_allowed p state)) [
  | inl yes_p ↦ inr (rw yes_p yes_p)
  | inr no_p ↦ rw no_p (elim (first_allowed-lem ps state current) [
    | inl none_fits ↦ inl (refl, none_fits)
    | inr fits ↦ inr fits
  ])
]

-- If the gate admits some phase, the phase after startup is one that it admits; a configured phase
-- that it admits is kept.
pub reconcile_with_schema-allowed :
    (current p : Phase) (state : SchemaState)
    → is_allowed p state ≡ true
    → (is_allowed (reconcile_with_schema current state) state ≡ true)
      × ((is_allowed current state ≡ false) ⊎ (reconcile_with_schema current state ≡ current))
unfolding reconcile_with_schema
reconcile_with_schema-allowed current p state h = elim (Bool-cases (is_allowed current state)) [
  | inl kept ↦ rw kept (kept, inr refl)
  | inr moved ↦ rw moved (
    elim (first_allowed-lem (new_only ∷ read_new ∷ dual_write ∷ legacy ∷ []) state current) [
      | inl none_fits ↦ absurd (impossible p none_fits h)
      | inr fits ↦ fits
    ],
    inl refl,
  )
]
  where
    impossible :
        (q : Phase)
        → All (λ r. is_allowed r state ≡ false) (new_only ∷ read_new ∷ dual_write ∷ legacy ∷ [])
        → is_allowed q state ≡ true
        → ⊥
    impossible new_only a k = cc a.0
    impossible read_new a k = cc a.1.0
    impossible dual_write a k = cc a.1.1.0
    impossible legacy a k = cc a.1.1.1.0
