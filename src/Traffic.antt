-- ===== src/Traffic.antt =====
-- scripts/traffic.py: the payload of a booking, the statistics of a run, the windows of steady mode,
-- and the verdict of concurrent mode. httpx, the clock and random choices are inputs: a call is given
-- its reply, or none when the connection fails.
pub mod Burst
pub mod Windows
pub mod Serving
pub mod Answers
pub mod Retry
use restaurant_reservation_s.Prelude.{
  ℕ, zero, suc, ◌+◌, ◌-◌, ◌*◌, ◌/◌, ◌%◌, Bool, true, false, not, ◌&&◌, ◌||◌, List, [], ◌∷◌, Option,
  none, some, ◌==◌, ltb, leb, count_where, length, text_eq, if◌then◌else◌,
}
use restaurant_reservation_s.Names.{Text}
use restaurant_reservation_s.Reservations.Requests.{ReservationCreate, second}

abbrev pub minute : ℕ
minute = 60 * second

abbrev pub hour : ℕ
hour = 60 * minute

abbrev pub day : ℕ
day = 24 * hour

unfoldable pub booking_payload : ℕ → ℕ → ℕ → Text → ReservationCreate
booking_payload restaurant_id table_id start name = record {
  restaurant_id = restaurant_id;
  restaurant_table_id = table_id;
  guest_name = name;
  party_size = 2;
  starts_at = start;
  ends_at = start + 90 * minute;
}

pub data Method : Type 0 where
  post get patch : Method

abbrev pub is_patch : Method → Bool
is_patch patch = true
is_patch _ = false

-- A reply: its status, and the fields of its body that the script reads.
pub record Reply : Type 0 where
  pub status : ℕ
  pub id : ℕ
  pub guest_name : Option Text
  pub version : ℕ

-- `codes` counts by method and status; here it is the list that is counted. Latencies are whole
-- milliseconds. `last_problem`, which is only printed, is left out.
pub record Stats : Type 0 where
  pub codes : List (Method × ℕ)
  pub latencies_ms : List ℕ
  pub errors : ℕ
  pub bad_fields : ℕ

abbrev pub is_conflict : Method × ℕ → Bool
is_conflict (m, status) = is_patch m && (status == 409 || status == 412)

-- The status has three digits, so its first digit is its number of hundreds.
abbrev pub begins_with : ℕ → Method × ℕ → Bool
begins_with d (m, status) = status / 100 == d

unfoldable pub conflicts : Stats → ℕ
conflicts s = count_where is_conflict s.codes

unfoldable pub total : Stats → ℕ
total s = length s.codes + s.errors

unfoldable pub server_errors : Stats → ℕ
server_errors s = count_where (begins_with 5) s.codes

unfoldable pub rejected : Stats → ℕ
unfolding conflicts
rejected s = count_where (begins_with 4) s.codes - conflicts s

abbrev pub p99_limit_ms : ℕ
p99_limit_ms = 500

-- `statistics.quantiles` is a parameter; it is not called for fewer than two latencies.
unfoldable pub percentile : (List ℕ → ℕ) → List ℕ → ℕ
percentile quantile [] = 0
percentile quantile (x ∷ []) = x
percentile quantile (x ∷ y ∷ xs) = quantile (x ∷ y ∷ xs)

-- The verdict of steady mode.
unfoldable pub report : (List ℕ → ℕ) → Stats → Bool
unfolding server_errors rejected percentile
report quantile s =
    server_errors s == 0
    && rejected s == 0
    && s.errors == 0
    && s.bad_fields == 0
    && ltb (percentile quantile s.latencies_ms) p99_limit_ms

pub record Steady : Type 0 where
  pub stats : Stats
  -- The name that a reservation must have, and the version last seen, by id.
  pub expected : List (ℕ × Text)
  pub version : List (ℕ × ℕ)
  pub slot : ℕ

-- A dictionary: the last value that was set for a key.
unfoldable pub lookup {ℓ} : {A : Type ℓ} → ℕ → List (ℕ × A) → Option A
lookup i [] = none
lookup i ((j, a) ∷ m) = if j == i then some a else lookup i m

unfoldable pub call : Method → Option Reply → ℕ → Steady → Steady
call m none ms s = record s { stats = record s.stats { errors = suc s.stats.errors } }
call m (some r) ms s = record s {
  stats = record s.stats {
    codes = (m, r.status) ∷ s.stats.codes;
    latencies_ms = ms ∷ s.stats.latencies_ms;
  };
}

abbrev pub has_name : Option Text → Text → Bool
has_name none want = false
has_name (some got) want = text_eq got want

unfoldable pub check_name : Reply → Text → Steady → Steady
check_name r want s =
    if has_name r.guest_name want
    then s
    else record s { stats = record s.stats { bad_fields = suc s.stats.bad_fields } }

abbrev pub seen_version : Reply → ℕ → Steady → Steady
seen_version r i s = record s { version = (i, r.version) ∷ s.version }

abbrev pub expect : ℕ → Text → Steady → Steady
expect i name s = record s { expected = (i, name) ∷ s.expected }

abbrev pub created : Text → Option Reply → Steady → Steady
created name none s = s
created name (some r) s =
    if r.status == 201 then seen_version r r.id (expect r.id name (check_name r name s)) else s

-- Where the window of a slot starts.
unfoldable pub slot_start : ℕ → ℕ → ℕ
slot_start base slot = base + slot / 10 * day + slot % 10 * (2 * hour)

unfoldable pub create : Text → Option Reply → ℕ → Steady → Steady
unfolding call check_name
create name reply ms s = created name reply (call post reply ms (record s { slot = suc s.slot }))

abbrev pub was_read : ℕ → Option Text → Option Reply → Steady → Steady
was_read i want none s = s
was_read i none (some r) s = s
was_read i (some want) (some r) s =
    if r.status == 200 then seen_version r i (check_name r want s) else s

unfoldable pub read : ℕ → Option Reply → ℕ → Steady → Steady
unfolding call check_name lookup
read i reply ms s = was_read i (lookup i s.expected) reply (call get reply ms s)

abbrev pub must_retry : Option Reply → Bool
must_retry none = false
must_retry (some r) = r.status == 409 || r.status == 412

abbrev pub renamed : ℕ → Text → Option Reply → Steady → Steady
renamed i name none s = s
renamed i name (some r) s =
    if r.status == 200 then seen_version r i (expect i name (check_name r name s)) else s

-- One round of `rename`: the replies of the PATCH and of the GET that a conflict asks for.
pub record Round : Type 0 where
  pub patched : Option Reply
  pub patched_ms : ℕ
  pub reread : Option Reply
  pub reread_ms : ℕ

-- The loop of `rename`, given the rounds that are left of its three.
unfoldable pub rename : ℕ → Text → Option Reply → List Round → Steady → Steady
unfolding call read
rename i name last [] s = renamed i name last s
rename i name last (d ∷ rounds) s =
    let tried = call patch d.patched d.patched_ms s in
    elim (must_retry d.patched) [
      | true ↦ rename i name d.patched rounds (read i d.reread d.reread_ms tried)
      | false ↦ renamed i name d.patched tried
    ]

-- The verdict of concurrent mode on the statuses of the replies (0 for an exception).
unfoldable pub one_won : ℕ → List ℕ → Bool
one_won burst codes =
    let won = count_where (λ c. c == 201) codes in
    let lost = count_where (λ c. c == 409) codes in won == 1 && won + lost == burst
