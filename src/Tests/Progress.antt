-- ===== src/Tests/Progress.antt =====
-- The theorems on edits, names, the backfill and the admin's phase change, at the small world.
use restaurant_reservation_s.Prelude.{
  ◌⊎◌, ℕ, ◌+◌, ◌≡◌, refl, Bool, true, false, List, [], ◌∷◌, none, some, arith, ◌==◌, ◌||◌, ◌&&◌,
  All,
}
use restaurant_reservation_s.Http.{ok, raised, http_exception, reservation_changed}
use restaurant_reservation_s.Names.{words, chunks, push, flush, join, is_space, space}
use restaurant_reservation_s.Names.Split.{NameFits}
use restaurant_reservation_s.Models.User.{User, admin}
use restaurant_reservation_s.Models.Reservation.{Reservation, cancelled}
use restaurant_reservation_s.Database.{Db}
use restaurant_reservation_s.Migration.Phase.{legacy, dual_write, read_new, new_only}
use restaurant_reservation_s.Migration.Schema.{schema_state, refusal}
use restaurant_reservation_s.Migration.Revisions.{upgrade_0002, upgrade_0003, upgrade_0004}
use restaurant_reservation_s.Rollout.{put_migration}
use restaurant_reservation_s.Rollout.Completion.{IsPlain, AllMigrated, migration-completes}
use restaurant_reservation_s.Rollout.Admin
use restaurant_reservation_s.Rollout.Admin.{change_phase-allowed_phases, migration_state, phase_eq}
use restaurant_reservation_s.Backfill.{awaiting, run_backfill, max_passes}
use restaurant_reservation_s.Backfill.Passes.{AllFilled}
use restaurant_reservation_s.Backfill.Opening.{IsClean, waits, run_backfill-total}
use restaurant_reservation_s.Reservations.Requests.{ReservationUpdate, validate_update}
use restaurant_reservation_s.Reservations.Etag.{etag, check_if_match}
use restaurant_reservation_s.Reservations.Tags.{check_if_match-etag}
use restaurant_reservation_s.Reservations.Service
use restaurant_reservation_s.Reservations.Service.{new_reservation, update_changes, cancel_changes}
use restaurant_reservation_s.Reservations.Routes.{out, to_out, cancel_reservation}
use restaurant_reservation_s.Reservations.Edited.{InPlace, IsEdited, update_reservation-IsEdited}
use restaurant_reservation_s.Reservations.Readable.{to_out-every_phase}
use restaurant_reservation_s.Reservations.Deleting.{IsTurned, cancel_reservation-no_500}
use restaurant_reservation_s.Reservations.Edits.{find-All}
use restaurant_reservation_s.Reservations.Store.{row_violations}
use restaurant_reservation_s.Names.{Text}
use restaurant_reservation_s.Database.{find_reservation}
use restaurant_reservation_s.Models.Reservation.{party_check, time_order_check}
use restaurant_reservation_s.Http.{status_code}
use restaurant_reservation_s.Tests.World.{
  engine, user, booking, cancelled_booking, before, ana, request,
}
use restaurant_reservation_s.Tests.Reservations.{
  before-IsValid, legacy-Fits, booking-found, booking-fine,
}

abbrev larger_party : ReservationUpdate
larger_party = record { guest_name = some ana; party_size = some 4; status = none }

larger_party-valid : validate_update larger_party ≡ true
unfolding validate_update
larger_party-valid = refl

update_reservation-IsEdited_example :
    (row : Reservation) × (after : List Reservation) × (Service.update_reservation engine legacy
        booking larger_party before
      ≡ (ok row, record before { reservations = after }))
    × IsEdited legacy (engine.next_xid before.reservations) larger_party booking row
    × InPlace booking row before.reservations after
update_reservation-IsEdited_example =
    update_reservation-IsEdited engine legacy before booking larger_party legacy-Fits before-IsValid
      booking-found booking-fine larger_party-valid refl refl

fine_rows :
    (rs : List Reservation)
    → All (λ r. row_violations before.columns r ≡ []) rs
    → All (λ r. (name : Text) × (to_out legacy legacy r ≡ ok (out r name))) rs
    → (j : ℕ) (row : Reservation) → find_reservation j rs ≡ some row
    → (row_violations before.columns row ≡ [])
      × ((name : Text) × (to_out legacy legacy row ≡ ok (out row name)))
fine_rows rs a b j row h = (
  find-All (λ r. row_violations before.columns r ≡ []) j rs h a,
  find-All (λ r. (name : Text) × (to_out legacy legacy r ≡ ok (out r name))) j rs h b,
)

before-fine : All (λ r. row_violations before.columns r ≡ []) before.reservations
unfolding row_violations party_check time_order_check
before-fine = (refl, (refl, tt))

before-readable :
    All (λ r. (name : Text) × (to_out legacy legacy r ≡ ok (out r name))) before.reservations
unfolding to_out
before-readable = ((ana, refl), ((ana, refl), tt))

cancel_reservation-no_500_example :
    (IsTurned (status_code (cancel_reservation engine legacy 1 user none before).0)
      × ((cancel_reservation engine legacy 1 user none before).1 ≡ before))
    ⊎ ((row : Reservation) × (find_reservation 1 before.reservations ≡ some row)
        × (status_code (cancel_reservation engine legacy 1 user none before).0 ≡ 200)
        × (((engine.emits row cancel_changes ≡ true)
              × ((after : List Reservation) × ((cancel_reservation engine legacy 1 user none
                      before).1
                    ≡ record before { reservations = after })
                  × InPlace row
                      (record row {
                        status = cancelled;
                        version = engine.next_xid before.reservations;
                      })
                      before.reservations
                      after))
            ⊎ ((engine.emits row cancel_changes ≡ false)
                × ((cancel_reservation engine legacy 1 user none before).1 ≡ before))))
cancel_reservation-no_500_example =
    cancel_reservation-no_500 engine legacy 1 user none before (omega arith) legacy-Fits
      before-IsValid (fine_rows before.reservations before-fine before-readable)

-- Version 5 is loaded, and the client saw version 6.
check_if_match-etag_example :
    check_if_match booking (some (etag cancelled_booking)) true
    ≡ raised (http_exception 412 reservation_changed)
check_if_match-etag_example = check_if_match-etag booking cancelled_booking true

ana-words : words ana ≡ (b'A' ∷ b'n' ∷ b'a' ∷ []) ∷ (b'L' ∷ b'i' ∷ b'm' ∷ []) ∷ []
unfolding words chunks push flush is_space
ana-words = refl

pub ana-join : ana ≡ join (words ana)
unfolding words chunks push flush is_space join
ana-join = refl

pub ana-fits : NameFits (words ana)
unfolding words chunks push flush is_space join
ana-fits = (omega arith, omega arith)

to_out-every_phase_example :
    to_out read_new read_new (new_reservation dual_write 7 request)
    ≡ ok (out (new_reservation dual_write 7 request) ana)
to_out-every_phase_example = to_out-every_phase dual_write read_new 7 request refl ana-join ana-fits

-- `\s` of PostgreSQL, at least on these characters.
abbrev pub white : ℕ → Bool
white c = is_space c || c == space

pub white-is_space : (c : ℕ) → is_space c ≡ false → white c ≡ false
unfolding is_space
white-is_space c h = ground arith

pub white-space : white space ≡ true
unfolding is_space
white-space = refl

abbrev pub expanded : Db
expanded = upgrade_0002 before

IsClean-booking :
    (r : Reservation)
    → r.guest_name ≡ some ana
    → r.first_name ≡ none
    → r.last_name ≡ none
    → IsClean white white-space white-is_space r
IsClean-booking r g f l = waits ana (rw f refl) g ana-join ana-fits

pub expanded-IsClean : All (IsClean white white-space white-is_space) expanded.reservations
unfolding upgrade_0002
expanded-IsClean = (IsClean-booking _ refl refl refl, (IsClean-booking _ refl refl refl, tt))

IsPlain-booking : (r : Reservation) → r.guest_name ≡ some ana → IsPlain r
IsPlain-booking r g = record {
  full = ana;
  named = g;
  single_spaces = ana-join;
  parts_fit = ana-fits;
}

abbrev pub stamp : ℕ → ℕ → ℕ
stamp n m = 20 + n + m

-- The booking is locked during the first batch of each pass.
run_backfill-total_example :
    (total : ℕ) × (after : List Reservation) × (run_backfill 5
        (λ k m i. m == 0 && i == 1)
        stamp
        1
        1
        0
        0
        before.reservations
      ≡ some (total, after))
    × AllFilled before.reservations after
    × (total + awaiting after ≡ 0 + awaiting before.reservations)
run_backfill-total_example =
    run_backfill-total 5 (λ k m i. m == 0 && i == 1) stamp 1 1 0 0 before.reservations

abbrev chief : User
chief = record user { role = admin }

change_phase-allowed_phases_example :
    (Admin.change_phase white dual_write chief legacy before).1 ≡ legacy
unfolding migration_state refusal schema_state
change_phase-allowed_phases_example =
    change_phase-allowed_phases white dual_write legacy chief before

migration-completes_example :
    (after : List Reservation) × (put_migration white dual_write legacy expanded
      ≡ (ok tt, dual_write))
    × (run_backfill max_passes (λ k m i. false) stamp 500 1 0 0 expanded.reservations
        ≡ some (awaiting expanded.reservations, after))
    × ((put_migration white read_new dual_write (record expanded { reservations = after })
          ≡ (ok tt, read_new))
        × (put_migration white new_only read_new
              (upgrade_0003 (record expanded { reservations = after }))
            ≡ (ok tt, new_only))
        × ((upgrade_0004 (upgrade_0003 (record expanded { reservations = after }))).0 ≡ ok tt)
        × AllMigrated before.reservations
            (upgrade_0004 (upgrade_0003 (record expanded { reservations = after }))).1.reservations)
migration-completes_example =
    migration-completes white white-space white-is_space before stamp 499 refl
      (omega arith, (omega arith, tt)) (IsPlain-booking _ refl, (IsPlain-booking _ refl, tt))
