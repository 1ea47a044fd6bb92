-- ===== src/Rollout/Steps.antt =====
-- What commits while the backfill runs and the API serves requests (docs/MIGRATION.md, steps 2 and
-- 3), in a phase that writes all three columns, and what each commit does to the names of a row.
use restaurant_reservation_s.Prelude.{
  ℕ, ◌≡◌, refl, Bool, true, false, List, [], ◌∷◌, Option, none, some, all,
}
use restaurant_reservation_s.Names.{Text, space, is_space, words, join, split_guest_name}
use restaurant_reservation_s.Names.Split.{NameFits}
use restaurant_reservation_s.Names.Canonical.{name_mismatch-split}
use restaurant_reservation_s.Models.User.{User}
use restaurant_reservation_s.Models.Reservation.{Reservation, Changes, NameWrite, apply}
use restaurant_reservation_s.Database.{Db, Engine}
use restaurant_reservation_s.Migration.Phase.{
  Phase, legacy, dual_write, read_new, new_only, write_columns, contains, guest_name, first_name,
  last_name,
}
use restaurant_reservation_s.Migration.Schema.{name_mismatch}
use restaurant_reservation_s.Reservations.Requests.{ReservationCreate, ReservationUpdate}
use restaurant_reservation_s.Reservations.Store.{names_of}
use restaurant_reservation_s.Reservations.Service.{
  no_names, write_name, new_reservation, update_changes,
}
use restaurant_reservation_s.Reservations.Routes.{create_reservation, finish_update, finish_cancel}
use restaurant_reservation_s.Backfill.{is_awaiting, fill}
use restaurant_reservation_s.Backfill.Opening.{IsClean, agrees, waits}

-- The phase writes all three columns: dual_write and read_new do.
abbrev pub writes_all : Phase → Bool
writes_all p = all (λ c. contains c (write_columns p)) (guest_name ∷ first_name ∷ last_name ∷ [])

-- Single spaces only, and parts of at most 60 characters.
abbrev pub IsPlainName : Text → Type 0
IsPlainName name = (name ≡ join (words name)) × NameFits (words name)

abbrev pub IsPlainOrNone : Option Text → Type 0
IsPlainOrNone none = Unit
IsPlainOrNone (some name) = IsPlainName name

-- One commit during the backfill.
pub data Live (s : Db) : Db → Type 0 where
  creates :
      (e : Engine) (p : Phase) (user : User) (b : ReservationCreate)
      → writes_all p ≡ true
      → IsPlainName b.guest_name
      → Live s (create_reservation e p user b s).1
  updates :
      (e : Engine) (p : Phase) (loaded : Reservation) (b : ReservationUpdate)
      → writes_all p ≡ true
      → IsPlainOrNone b.guest_name
      → Live s (finish_update e p loaded b s).1
  cancels : (e : Engine) (p : Phase) (loaded : Reservation) → Live s (finish_cancel e p loaded s).1
  fills :
      (xid : ℕ) (b : List Reservation)
      → Live s (record s { reservations = fill xid b s.reservations })
  elsewhere : (t : Db) → t.reservations ≡ s.reservations → t.columns ≡ s.columns → Live s t

pub data History (s : Db) : Db → Type 0 where
  here : History s s
  next : {t u : Db} → History s t → Live t u → History s u

abbrev pub all_names : Text → NameWrite
all_names name = record {
  guest_name = some name;
  first_name = some (split_guest_name name).0;
  last_name = some (split_guest_name name).1;
}

write_name-all :
    (p : Phase) (name : Text) → writes_all p ≡ true → write_name p name ≡ all_names name
unfolding write_name
write_name-all legacy name h = cc
write_name-all dual_write name h = refl
write_name-all read_new name h = refl
write_name-all new_only name h = cc

pub new_reservation-names :
    (p : Phase) (user_id : ℕ) (b : ReservationCreate)
    → writes_all p ≡ true
    → names_of (new_reservation p user_id b) ≡ all_names b.guest_name
unfolding new_reservation
new_reservation-names legacy user_id b h = cc
new_reservation-names dual_write user_id b h = refl
new_reservation-names read_new user_id b h = refl
new_reservation-names new_only user_id b h = cc

name_mismatch-columns :
    (pg_space : ℕ → Bool) (r q : Reservation)
    → r.guest_name ≡ q.guest_name
    → r.first_name ≡ q.first_name
    → r.last_name ≡ q.last_name
    → name_mismatch pg_space r ≡ name_mismatch pg_space q
unfolding name_mismatch
name_mismatch-columns pg_space r q g f l = rw (g, f, l) refl

module _ (pg_space : ℕ → Bool) (pg_space-space : pg_space space ≡ true)
    (pg_space-is_space : (c : ℕ) → is_space c ≡ false → pg_space c ≡ false) where
  abbrev pub Clean : Reservation → Type 0
  Clean = IsClean pg_space pg_space-space pg_space-is_space

  Clean-columns :
      (r q : Reservation)
      → r.guest_name ≡ q.guest_name
      → r.first_name ≡ q.first_name
      → r.last_name ≡ q.last_name
      → Clean q
      → Clean r
  Clean-columns r q g f l (agrees a m) =
      agrees (rw f a) (rw (name_mismatch-columns pg_space r q g f l) m)
  Clean-columns r q g f l (waits full a h c t) = waits full (rw f a) (rw g h) c t

  pub Clean-split :
      (r : Reservation) (name : Text)
      → r.guest_name ≡ some name
      → r.first_name ≡ some (split_guest_name name).0
      → r.last_name ≡ some (split_guest_name name).1
      → IsPlainName name
      → Clean r
  Clean-split r name g f l plain =
      agrees (rw f refl)
        (name_mismatch-split pg_space pg_space-space pg_space-is_space r name g f l plain.0 plain.1)

  -- A row after an edit is clean, and awaits its names only if it did before.
  pub record IsBetter (q r : Reservation) : Type 0 where
    pub clean : Clean r
    pub no_loss : is_awaiting q ≡ false → is_awaiting r ≡ false

  pub unnamed-IsBetter :
      (c : Changes) (q : Reservation) (x : ℕ)
      → c.names ≡ no_names
      → Clean q
      → IsBetter q (record (apply c q) { version = x })
  unnamed-IsBetter c q x h k = record {
    clean =
        Clean-columns (record (apply c q) { version = x }) q (rw h refl) (rw h refl) (rw h refl) k;
    no_loss = λ a. rw h a;
  }

  named-IsBetter :
      (c : Changes) (q : Reservation) (x : ℕ) (name : Text)
      → c.names ≡ all_names name
      → IsPlainName name
      → IsBetter q (record (apply c q) { version = x })
  named-IsBetter c q x name h plain = record {
    clean =
        Clean-split (record (apply c q) { version = x }) name (rw h refl) (rw h refl) (rw h refl)
          plain;
    no_loss = λ a. rw h refl;
  }

  pub edited-IsBetter :
      (p : Phase) (b : ReservationUpdate) (q : Reservation) (x : ℕ)
      → writes_all p ≡ true
      → IsPlainOrNone b.guest_name
      → Clean q
      → IsBetter q (record (apply (update_changes p b) q) { version = x })
  edited-IsBetter p b q x w plain c = go b.guest_name refl plain
    where
      go :
          (o : Option Text)
          → b.guest_name ≡ o
          → IsPlainOrNone o
          → IsBetter q (record (apply (update_changes p b) q) { version = x })
      go none h t = unnamed-IsBetter (update_changes p b) q x (unfold update_changes in rw h refl) c
      go (some name) h t =
          named-IsBetter (update_changes p b) q x name
            (unfold update_changes in rw h (write_name-all p name w)) t
