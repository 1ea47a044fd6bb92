-- ===== src/Seed/Documents.antt =====
-- The documents of MongoDB that scripts/seed.py writes (seed_mongo, reset_mongo). Every document is an
-- upsert under an _id that stable_oid computes. What `random` and Faker draw for the other fields is an
-- input.
use restaurant_reservation_s.Prelude.{
  ℕ, ◌+◌, ◌%◌, ◌≡◌, refl, Bool, true, List, [], ◌∷◌, Option, none, some, any, length, range,
  text_eq, text_eq_refl, text_eq→eq, ◌||◌, if◌then◌else◌, arith, All, Bool-cases, inl, inr, All-map,
}
use restaurant_reservation_s.Names.{Text}
use restaurant_reservation_s.Seed.Postgres.{
  Digests, stable_oid, product_kind, n_products, n_restaurants,
}

abbrev pub n_reviews : ℕ
n_reviews = 1500

abbrev pub n_telemetry : ℕ
n_telemetry = 5000

-- A document: `fields` stands for all that a run draws for it. An event has no restaurant_id.
pub record Document : Type 0 where
  pub id : Text
  pub restaurant_id : Option ℕ
  pub fields : ℕ

pub record Collections : Type 0 where
  pub products : List Document
  pub reviews : List Document
  pub user_telemetry : List Document

-- UpdateOne({"_id": ...}, {"$set": doc}, upsert=True)
unfoldable pub upsert : Document → List Document → List Document
upsert x [] = x ∷ []
upsert x (d ∷ ds) = if text_eq d.id x.id then x ∷ ds else d ∷ upsert x ds

-- bulk_write of the documents with these numbers.
unfoldable pub write_all : (ℕ → Document) → List ℕ → List Document → List Document
unfolding upsert
write_all doc [] ds = ds
write_all doc (i ∷ is) ds = write_all doc is (upsert (doc i) ds)

abbrev review_kind : Text
review_kind = b'r' ∷ b'e' ∷ b'v' ∷ b'i' ∷ b'e' ∷ b'w' ∷ []

abbrev telemetry_kind : Text
telemetry_kind = b't' ∷ b'e' ∷ b'l' ∷ b'e' ∷ b'm' ∷ b'e' ∷ b't' ∷ b'r' ∷ b'y' ∷ []

-- What is drawn for the documents of each collection, by number.
pub record DocumentDraws : Type 0 where
  pub products : ℕ → ℕ
  pub reviews : ℕ → ℕ
  pub user_telemetry : ℕ → ℕ

unfoldable pub product_document : Digests → (ℕ → ℕ) → ℕ → Document
product_document g d i = record {
  id = stable_oid g product_kind i;
  restaurant_id = some (i % n_restaurants + 1);
  fields = d i;
}

unfoldable pub review_document : Digests → (ℕ → ℕ) → ℕ → Document
review_document g d i = record {
  id = stable_oid g review_kind i;
  restaurant_id = some (i % n_restaurants + 1);
  fields = d i;
}

unfoldable pub telemetry_document : Digests → (ℕ → ℕ) → ℕ → Document
telemetry_document g d i = record {
  id = stable_oid g telemetry_kind i;
  restaurant_id = none;
  fields = d i;
}

unfoldable pub seed_mongo : Digests → DocumentDraws → Collections → Collections
seed_mongo g d m = record {
  products = write_all (product_document g d.products) (range 0 n_products) m.products;
  reviews = write_all (review_document g d.reviews) (range 0 n_reviews) m.reviews;
  user_telemetry =
      write_all (telemetry_document g d.user_telemetry) (range 0 n_telemetry) m.user_telemetry;
}

unfoldable pub reset_mongo : Collections → Collections
reset_mongo m = record { products = []; reviews = []; user_telemetry = [] }

unfoldable pub mongo_total : Collections → ℕ
mongo_total m = length m.products + length m.reviews + length m.user_telemetry

-- A document with this _id is there.
abbrev has_id : Text → List Document → Bool
has_id i ds = any (λ d. text_eq d.id i) ds

upsert-has_id : (x : Document) (ds : List Document) → has_id x.id (upsert x ds) ≡ true
unfolding upsert
upsert-has_id x [] = ground (arith, text_eq_refl x.id)
upsert-has_id x (d ∷ ds) = ground (arith, text_eq_refl x.id, upsert-has_id x ds)

has_id-upsert :
    (i : Text) (x : Document) (ds : List Document)
    → has_id i ds ≡ true
    → has_id i (upsert x ds) ≡ true
unfolding upsert
has_id-upsert i x [] h = cc
has_id-upsert i x (d ∷ ds) h = elim (Bool-cases (text_eq d.id x.id)) [
  | inl hit ↦
      let e = text_eq→eq d.id x.id hit in
      let k : (text_eq x.id i || has_id i ds) ≡ true = rw (← e) h in rw hit k
  | inr miss ↦ ground (arith, miss, h, has_id-upsert i x ds)
]

length-upsert :
    (x : Document) (ds : List Document) → has_id x.id ds ≡ true → length (upsert x ds) ≡ length ds
unfolding upsert
length-upsert x [] h = cc
length-upsert x (d ∷ ds) h = ground (arith, length-upsert x ds)

write_all-has_id :
    (doc : ℕ → Document) (is : List ℕ) (i : Text) (ds : List Document)
    → has_id i ds ≡ true
    → has_id i (write_all doc is ds) ≡ true
unfolding write_all
write_all-has_id doc [] i ds h = h
write_all-has_id doc (j ∷ is) i ds h =
    write_all-has_id doc is i (upsert (doc j) ds) (has_id-upsert i (doc j) ds h)

write_all-All :
    (doc : ℕ → Document) (is : List ℕ) (ds : List Document)
    → All (λ i. has_id (doc i).id (write_all doc is ds) ≡ true) is
unfolding write_all
write_all-All doc [] ds = tt
write_all-All doc (i ∷ is) ds = (
  write_all-has_id doc is (doc i).id (upsert (doc i) ds) (upsert-has_id (doc i) ds),
  write_all-All doc is (upsert (doc i) ds),
)

length-write_all :
    (doc : ℕ → Document) (is : List ℕ) (ds : List Document)
    → All (λ i. has_id (doc i).id ds ≡ true) is
    → length (write_all doc is ds) ≡ length ds
unfolding write_all
length-write_all doc [] ds h = refl
length-write_all doc (i ∷ is) ds h =
    let kept =
      All-map (λ j. has_id (doc j).id ds ≡ true) (λ j. has_id (doc j).id (upsert (doc i) ds) ≡ true)
        (λ j k. has_id-upsert (doc j).id (doc i) ds k) is h.1 in
    omega (arith, length-upsert (doc i) ds h.0, length-write_all doc is (upsert (doc i) ds) kept)

-- Documents with the same ids as those written before add none.
again :
    (doc old : ℕ → Document) (is : List ℕ) (ds : List Document)
    → ((i : ℕ) → (doc i).id ≡ (old i).id)
    → length (write_all doc is (write_all old is ds)) ≡ length (write_all old is ds)
again doc old is ds same = length-write_all doc is (write_all old is ds) (
    All-map (λ i. has_id (old i).id (write_all old is ds) ≡ true)
      (λ i. has_id (doc i).id (write_all old is ds) ≡ true)
      (λ i h. let k : has_id (doc i).id (write_all old is ds) ≡ true = rw (same i) h in k) is
      (write_all-All old is ds))

-- A second run on the documents of a first one, whatever each draws, changes no count.
pub seed_mongo-again :
    (g : Digests) (d old : DocumentDraws) (m : Collections)
    → (length (seed_mongo g d (seed_mongo g old m)).products ≡ length (seed_mongo g old m).products)
      × (length (seed_mongo g d (seed_mongo g old m)).reviews ≡ length (seed_mongo g old m).reviews)
      × (length (seed_mongo g d (seed_mongo g old m)).user_telemetry
          ≡ length (seed_mongo g old m).user_telemetry)
unfolding seed_mongo product_document review_document telemetry_document
seed_mongo-again g d old m = (
  again (product_document g d.products) (product_document g old.products) (range 0 n_products)
      m.products (λ i. refl),
  again (review_document g d.reviews) (review_document g old.reviews) (range 0 n_reviews) m.reviews
      (λ i. refl),
  again (telemetry_document g d.user_telemetry) (telemetry_document g old.user_telemetry)
      (range 0 n_telemetry) m.user_telemetry (λ i. refl),
)
