-- ===== src/Users/Accounts.antt =====
-- The invariant of the accounts: no two share an email, and nobody raises his own role.
use restaurant_reservation_s.Prelude.{
  ℕ, ◌≡◌, ◌≢◌, refl, Bool, true, false, List, [], ◌∷◌, ◌==◌, any, All, arith, Bool-cases, inl, inr,
  ==→eq, ==-refl,
}
use restaurant_reservation_s.Http.{ok}
use restaurant_reservation_s.Names.{Text}
use restaurant_reservation_s.Models.User.{User, customer}
use restaurant_reservation_s.Database.{Db, Engine}
use restaurant_reservation_s.Users.{
  UserCreate, UserUpdate, new_user, user_violates, create_user, other_users, replace_user, edited,
  update_own_profile,
}

module _ (same_email : Text → Text → Bool)
    (same_email_comm : (a b : Text) → same_email a b ≡ same_email b a) where
  abbrev pub IsAlone : User → List User → Type 0
  IsAlone u us = All (λ v. same_email v.email u.email ≡ false) us

  -- No two accounts share an email or an id.
  abbrev pub HasUniqueEmails : List User → Type 0
  HasUniqueEmails [] = Unit
  HasUniqueEmails (u ∷ us) = IsAlone u us × All (λ v. v.id ≢ u.id) us × HasUniqueEmails us

  any-IsAlone :
      (u : User) (us : List User) → any (λ v. same_email v.email u.email) us ≡ false → IsAlone u us
  any-IsAlone u [] h = tt
  any-IsAlone u (v ∷ us) h = ground (arith, any-IsAlone u us)

  user_violates-IsAlone :
      (u : User) (us : List User) → user_violates same_email u us ≡ false → IsAlone u us
  unfolding user_violates
  user_violates-IsAlone u us h = any-IsAlone u us (ground arith)

  create_user-HasUniqueEmails :
      (e : Engine) (hash : Text → Text) (b : UserCreate) (s : Db)
      → HasUniqueEmails s.users
      → HasUniqueEmails (create_user same_email e hash b s).1.users
  unfolding create_user
  create_user-HasUniqueEmails e hash b s h =
      elim (Bool-cases (user_violates same_email (new_user e hash b s.users) s.users)) [
        | inl clash ↦ rw clash h
        | inr fine ↦ rw fine (
          user_violates-IsAlone (new_user e hash b s.users) s.users fine,
          unfold new_user in e.fresh_user_id s.users,
          h,
        )
      ]

  IsAlone-replace :
      (v u : User) (us : List User)
      → IsAlone v us
      → same_email u.email v.email ≡ false
      → IsAlone v (replace_user same_email u us)
  unfolding replace_user
  IsAlone-replace v u [] a h = tt
  IsAlone-replace v u (w ∷ us) a h = ground (arith, IsAlone-replace v u us a.1 h)

  ne-replace :
      (k : ℕ) (u : User) (us : List User)
      → u.id ≢ k
      → All (λ v. v.id ≢ k) us
      → All (λ v. v.id ≢ k) (replace_user same_email u us)
  unfolding replace_user
  ne-replace k u [] h a = tt
  ne-replace k u (v ∷ us) h a = ground (arith, ne-replace k u us h a.1)

  others-fresh :
      (i : ℕ) (us : List User) → All (λ v. v.id ≢ i) us → other_users same_email i us ≡ us
  unfolding other_users
  others-fresh i [] h = refl
  others-fresh i (u ∷ us) h = ground (arith, others-fresh i us h.1)

  replace-HasUniqueEmails :
      (u : User) (us : List User)
      → HasUniqueEmails us
      → IsAlone u (other_users same_email u.id us)
      → HasUniqueEmails (replace_user same_email u us)
  unfolding replace_user other_users
  replace-HasUniqueEmails u [] h a = tt
  replace-HasUniqueEmails u (v ∷ us) h a = elim (Bool-cases (v.id == u.id)) [
    | inl hit ↦
        let ids = rw (==→eq v.id u.id hit) at h.1 in
        rw hit (rw (others-fresh u.id us ids) at (rw hit at a), ids, h.2)
    | inr miss ↦
        let b = rw miss at a in
        rw miss (
          IsAlone-replace v u us h.0 (rw same_email_comm b.0),
          ne-replace v.id u us (λ e. cc (miss, ==-refl v.id, e)) h.1,
          replace-HasUniqueEmails u us h.2 b.1,
        )
  ]

  update_own_profile-HasUniqueEmails :
      (b : UserUpdate) (current : User) (s : Db)
      → HasUniqueEmails s.users
      → HasUniqueEmails (update_own_profile same_email b current s).1.users
  unfolding update_own_profile
  update_own_profile-HasUniqueEmails b current s h =
      elim (Bool-cases (
        user_violates same_email (edited same_email b current)
          (other_users same_email current.id s.users))) [
            | inl clash ↦ rw clash h
            | inr fine ↦ rw fine (
                replace-HasUniqueEmails (edited same_email b current) s.users h (
                  unfold edited in
                  user_violates-IsAlone (edited same_email b current)
                    (other_users same_email current.id s.users) fine))
          ]

  -- Signups and profile edits, one after the other.
  pub data Accounts (s : Db) : Db → Type 0 where
    start : Accounts s s
    signup :
        {t : Db} (e : Engine) (hash : Text → Text) (b : UserCreate)
        → Accounts s t
        → Accounts s (create_user same_email e hash b t).1
    edit :
        {t : Db} (b : UserUpdate) (current : User)
        → Accounts s t
        → Accounts s (update_own_profile same_email b current t).1

  -- For a symmetric comparison of emails: if no two accounts share an email or an id, then none do
  -- after any signups and profile edits.
  pub Accounts-HasUniqueEmails :
      (s t : Db) → HasUniqueEmails s.users → Accounts s t → HasUniqueEmails t.users
  Accounts-HasUniqueEmails s t h start = h
  Accounts-HasUniqueEmails s t h (signup {t = u} e hash b r) =
      create_user-HasUniqueEmails e hash b u (Accounts-HasUniqueEmails s u h r)
  Accounts-HasUniqueEmails s t h (edit {t = u} b current r) =
      update_own_profile-HasUniqueEmails b current u (Accounts-HasUniqueEmails s u h r)

-- A profile edit that succeeds changes neither the id nor the role nor the password nor whether the
-- account is active, and a signup that succeeds gives an active customer.
pub accounts_keep_roles :
    (same_email : Text → Text → Bool) (e : Engine) (hash : Text → Text) (a : UserCreate)
    (b : UserUpdate) (current : User) (s t : Db) {u v : User}
    → (create_user same_email e hash a s).0 ≡ ok u
    → (update_own_profile same_email b current t).0 ≡ ok v
    → (u.role ≡ customer)
      × (u.is_active ≡ true)
      × (v.role ≡ current.role)
      × (v.is_active ≡ current.is_active)
      × (v.password_hash ≡ current.password_hash)
      × (v.id ≡ current.id)
unfolding create_user update_own_profile new_user edited
accounts_keep_roles same_email e hash a b current s t h k = ground arith
