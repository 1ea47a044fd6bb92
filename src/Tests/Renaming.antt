-- ===== src/Tests/Renaming.antt =====
-- The theorem on a rename of the traffic script, at the small world.
use restaurant_reservation_s.Prelude.{◌≡◌, ◌≤◌, refl, [], ◌∷◌, none, some, arith, length}
use restaurant_reservation_s.Http.{ok}
use restaurant_reservation_s.Names.{Text, words, chunks, push, flush, join, is_space}
use restaurant_reservation_s.Names.Split.{NameFits}
use restaurant_reservation_s.Migration.Phase.{legacy}
use restaurant_reservation_s.Reservations.Service.{update_changes}
use restaurant_reservation_s.Reservations.Routes.{out, to_out}
use restaurant_reservation_s.Reservations.Cases.{with_replaced}
use restaurant_reservation_s.Reservations.Success.{edited_row}
use restaurant_reservation_s.Traffic.{Steady, rename, lookup}
use restaurant_reservation_s.Traffic.Serving.{served, name_body}
use restaurant_reservation_s.Traffic.Answers.{MayRename}
use restaurant_reservation_s.Traffic.Retry.{IsRenamed, rename-served}
use restaurant_reservation_s.Tests.World.{engine, user, booking, before, ana}
use restaurant_reservation_s.Tests.Reservations.{
  before-IsValid, legacy-Fits, booking-found, booking-fine,
}

abbrev bo : Text
bo = b'B' ∷ b'o' ∷ b' ' ∷ b'L' ∷ b'i' ∷ b'm' ∷ []

bo-join : bo ≡ join (words bo)
unfolding words chunks push flush is_space join
bo-join = refl

bo-fits : NameFits (words bo)
unfolding words chunks push flush is_space join
bo-fits = (omega arith, omega arith)

booking-readable : to_out legacy legacy booking ≡ ok (out booking ana)
unfolding to_out
booking-readable = refl

bo-MayRename : MayRename engine legacy user 1 bo before booking ana
bo-MayRename = record {
  fits = legacy-Fits;
  valid = before-IsValid;
  found = booking-found;
  own = refl;
  fine = booking-fine;
  readable = booking-readable;
  length_fits = refl;
  single_spaces = bo-join;
  parts_fit = bo-fits;
  sent = refl;
}

-- The script has seen version 4, and the row has version 5.
abbrev steady : Steady
steady = record {
  stats = record { codes = []; latencies_ms = []; errors = 0; bad_fields = 0 };
  expected = (1, ana) ∷ [];
  version = (1, 4) ∷ [];
  slot = 1;
}

version-known : lookup 1 steady.version ≡ some 4
unfolding lookup
version-known = refl

name-known : lookup 1 steady.expected ≡ some ana
unfolding lookup
name-known = refl

rename-served_example :
    (length (served engine legacy user 1 bo 3 steady before).0 ≤ 2)
    × ((served engine legacy user 1 bo 3 steady before).1
        ≡ with_replaced before
            (edited_row engine before (update_changes legacy (name_body bo)) booking))
    × IsRenamed 1 bo
        (edited_row engine before (update_changes legacy (name_body bo)) booking).version
        steady
        (rename 1 bo none (served engine legacy user 1 bo 3 steady before).0 steady)
rename-served_example = rename-served bo-MayRename 1 4 steady version-known name-known
