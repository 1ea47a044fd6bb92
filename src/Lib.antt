-- ===== src/Lib.antt =====
-- TableFlow: a verification model of the restaurant reservation system. The program is a FastAPI
-- service over PostgreSQL (users, restaurants, tables, reservations, orders) and MongoDB (products and
-- telemetry), with a migration of the guest's name from one column to two that runs while the service
-- answers requests.
--
-- How the program is modelled
--
-- A handler is a function of the database, Action in Action.antt: it returns an Outcome (a value, an
-- HTTPException, or an exception of a library, which is answered 500) and the database afterwards. A
-- transaction is one step. PATCH and DELETE of a reservation read in one transaction and write in a
-- later one, so each is two functions (begin_edit, and finish_update or finish_cancel), between which
-- other requests may commit. What PostgreSQL and SQLAlchemy choose by themselves (new ids, xmin, the
-- constraint that an error names, whether an UPDATE without changes is sent) is the record Engine of
-- Database.antt, with what the code relies on as its laws. bcrypt and PyJWT are the record Crypto,
-- bson's ObjectId the record ObjectIds, uuid5 and SHA-1 the record Digests, Python's conversions to and
-- from a float the record Floats, MongoDB's text search, the comparison of CITEXT and the white space of
-- PostgreSQL's regular expressions are function parameters. What random and Faker draw, what httpx
-- answers and what Locust measures is an input.
--
-- Prelude         shared names, Boolean tests, lists over the native numbers
-- Http            outcomes, exceptions and status codes
-- Models          app/models: the rows and their constraints
-- Database        the tables, the SELECTs by id, and the Engine
-- Action          handlers; Action/Effects has their inversion lemmas
-- Names           split_guest_name and the name that _fields builds (app/services/reservations.py);
--                 Canonical compares them with name_mismatch of app/migration.py
-- Reservations    app/services/reservations.py, app/routers/reservations.py, app/schemas/reservation.py:
--                 Requests (bodies), Store (INSERT, UPDATE and the constraints), Etag, Service, Routes;
--                 Listing is the caller's list. Inversion, Cases, Booking, Success, Stored and Changing are
--                 lemmas, Invariant, Outcomes, Edits, Edited, Tags, Reopening, Readable, Race, Newest, Answers
--                 and Deleting hold the results; Calendar compares the service with an abstract
--                 calendar of slots, a quotient
-- Migration       app/migration.py and alembic/versions: Phase, Schema (the state and the gate),
--                 Revisions, Fit (when a phase fits a schema), Gate
-- Rollout         requests, PUT /admin/migration (app/routers/admin.py) and revisions interleaved;
--                 Admin has the routes of app/routers/admin.py with their guard, Completion the
--                 procedure of docs/MIGRATION.md, Steps, Live and Finish the backfill under traffic
-- Backfill        scripts/backfill_names.py; Passes and Opening hold the results
-- Orders          app/services/orders.py, app/schemas/order.py: Money, Catalogue, Placing, Status and
--                 Listing, with app/routers/orders.py in Routes; the results are in Receipt, Rounding,
--                 Lifecycle and Newest, References has lemmas
-- Products        app/routers/products.py, app/schemas/product.py; Listing has the list, Lines lemmas, Pricing
--                 a result
-- Restaurants     app/routers/restaurants.py, app/schemas/restaurant.py
-- Paging          ORDER BY, OFFSET and LIMIT, and app/schemas/common.py
-- Security        app/security.py, app/routers/auth.py
-- Users           app/routers/users.py, app/schemas/user.py
-- Api             the requests of all routers that change PostgreSQL as steps: Integrity says when the
--                 rows fit together, Bookings and Accounts have lemmas, Consistency the result
-- Privacy         who may read what, across the routers
-- Seed            scripts/seed.py: the reservations; Postgres the other rows, Documents the upserts of
--                 MongoDB, Script the counts and the command line. Plan holds the result
-- Traffic         scripts/traffic.py: Burst runs concurrent mode against the service, Serving a rename
--                 of steady mode; Answers has lemmas, Windows and Retry further results
-- LoadTest        loadtest/locustfile.py: how a customer books, edits and cancels, and the
--                 targets; Noted and Slots have lemmas, Booking and Edits hold results
-- App             app/config.py and app/main.py; Start is a process that starts during the migration
-- Tests           the results at concrete inputs
--
-- Numbers, texts and fuel
--
-- Ids (also UUIDs), versions and times are natural numbers: a time is a number of microseconds since a
-- fixed instant, in tokens a number of seconds. An amount of money is its number of hundredths, a
-- rating its number of tenths. A text is the list of its code points. The range checks of amounts and
-- quantities are written out. The ids in a request are taken to fit BIGINT, and its texts to have the
-- lengths that Pydantic allows and no NUL, which PostgreSQL does not store; a result that denies a 500
-- has this as a hypothesis. xmin is taken to grow: its wrap-around after 2 ^ 32 transactions is left
-- out. Two loops run on fuel: run_pass of the backfill, where a pass needs more fuel than there are
-- rows that await their names, which is what run_backfill gives each pass; and the printing of a number,
-- which a fuel above the number itself brings to its end.
--
-- What is not modelled
--
-- Connections and indexes (app/db), and the wiring of app/main.py, which only call libraries; the rest
-- of the load test and its charts; scripts/phase.py; in scripts/traffic.py the schedule of the tasks,
-- login and printing; and the web client.
-- Locks appear only as the atomicity of a step, so deadlocks and time-outs are left out. PUT
-- /admin/migration is one step too, from the gate to the new phase, although the source closes the
-- connection in between. Of the constraints on the rows of the seed only those on single reservations
-- are checked. Accounts and
-- restaurants are never deleted by the program, and neither is their deletion modelled.
pub mod Prelude
pub mod Http
pub mod Names
pub mod Models
pub mod Database
pub mod Action
pub mod Migration
pub mod Reservations
pub mod Orders
pub mod Paging
pub mod Restaurants
pub mod Security
pub mod Users
pub mod Products
pub mod Backfill
pub mod Privacy
pub mod Rollout
pub mod Traffic
pub mod App
pub mod Api
pub mod LoadTest
pub mod Seed
pub mod Tests
