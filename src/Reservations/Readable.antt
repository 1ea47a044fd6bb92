-- ===== src/Reservations/Readable.antt =====
-- Reading after a phase change (app/migration.py, refusal, and app/services/reservations.py, to_out).
use restaurant_reservation_s.Prelude.{true, all, sym, ◌∙◌, ℕ, ◌≡◌, refl, [], ◌∷◌, some, arith}
use restaurant_reservation_s.Names.{Text, rebuilt_name, split_guest_name, words, join}
use restaurant_reservation_s.Names.Split.{NameFits, rebuilt_name-split}
use restaurant_reservation_s.Reservations.Requests.{ReservationCreate}
use restaurant_reservation_s.Reservations.Service.{new_reservation}
use restaurant_reservation_s.Http.{ok}
use restaurant_reservation_s.Models.Reservation.{Reservation}
use restaurant_reservation_s.Database.{Db}
use restaurant_reservation_s.Migration.Phase.{
  Phase, legacy, dual_write, read_new, new_only, guest_name, first_name, last_name, contains,
  write_columns,
}
use restaurant_reservation_s.Reservations.Routes.{out, to_out, respond}
use restaurant_reservation_s.Reservations.Etag.{etag}

-- The name that a phase shows: guest_name before read_new, and then the two new columns.
abbrev pub ShowsName : Phase → Reservation → Text → Type 0
ShowsName legacy r name = r.guest_name ≡ some name
ShowsName dual_write r name = r.guest_name ≡ some name
ShowsName read_new r name = rebuilt_name r.first_name r.last_name ≡ name
ShowsName new_only r name = rebuilt_name r.first_name r.last_name ≡ name

-- A reservation that is created in a phase that writes all three columns, under a guest name with
-- single spaces only and parts of at most 60 characters, is answered with that name in every phase.
pub to_out-every_phase :
    (p q : Phase) (user_id : ℕ) (b : ReservationCreate)
    → all (λ c. contains c (write_columns p)) (guest_name ∷ first_name ∷ last_name ∷ []) ≡ true
    → b.guest_name ≡ join (words b.guest_name)
    → NameFits (words b.guest_name)
    → to_out q q (new_reservation p user_id b) ≡ ok (out (new_reservation p user_id b) b.guest_name)
unfolding to_out new_reservation
to_out-every_phase p q user_id b w clean fits = go p q w
  where
    same :
        rebuilt_name
          (some (split_guest_name b.guest_name).0)
          (some (split_guest_name b.guest_name).1)
        ≡ b.guest_name
    same = rebuilt_name-split b.guest_name fits ∙ sym clean

    go :
        (p q : Phase)
        → all (λ c. contains c (write_columns p)) (guest_name ∷ first_name ∷ last_name ∷ []) ≡ true
        → to_out q q (new_reservation p user_id b)
          ≡ ok (out (new_reservation p user_id b) b.guest_name)
    go legacy q h = cc
    go new_only q h = cc
    go dual_write legacy h = refl
    go dual_write dual_write h = refl
    go dual_write read_new h = rw same refl
    go dual_write new_only h = rw same refl
    go read_new legacy h = refl
    go read_new dual_write h = refl
    go read_new read_new h = rw same refl
    go read_new new_only h = rw same refl

pub responded :
    (p : Phase) (row : Reservation) (name : Text) (s : Db)
    → to_out p p row ≡ ok (out row name)
    → respond p p row s ≡ (ok (out row name, etag row), s)
unfolding respond
responded p row name s h = ground (arith, h)
