-- ===== src/Users/Naming.antt =====
-- The bounds of the user names of src/users/.
use chatwave_backend.Base.{
  ℕ, List, zero, suc, ◌+◌, ◌≡◌, ◌≤◌, refl, Bool, true, [], ◌∷◌, ◌++◌, ltb, filter, length, take,
  All, All-append, min, arith, Bool-cases, inl, inr,
}
use chatwave_backend.Base.Text.{Text, text}
use chatwave_backend.Env.{Env}
use chatwave_backend.Users.Names.{is_name_unit, before_at, or_user, lengthened, username_from_email}

pub length-take : {A : Type 0} (n : ℕ) (s : List A) → length (take n s) ≡ min n (length s)
length-take zero s = ground arith
length-take (suc n) [] = ground arith
length-take (suc n) (c ∷ s) = ground (arith, length-take n s)

pub length-append : (s t : Text) → length (s ++ t) ≡ length s + length t
length-append [] t = ground arith
length-append (c ∷ s) t = ground (arith, length-append s t)

abbrev IsUnit : ℕ → Type 0
IsUnit c = is_name_unit c ≡ true

All-take : (n : ℕ) (s : Text) → All IsUnit s → All IsUnit (take n s)
All-take zero s h = tt
All-take (suc n) [] h = tt
All-take (suc n) (c ∷ s) (p, h) = (p, All-take n s h)

All-self : (p : ℕ → Bool) (s : Text) → All (λ c. p c ≡ true) (filter p s)
All-self p [] = tt
All-self p (c ∷ s) = elim (Bool-cases (p c)) [
  | inl t ↦ rw t (t, All-self p s)
  | inr f ↦ rw f (All-self p s)
]

lengthened-IsUnit : (s : Text) → All IsUnit s → All IsUnit (lengthened s)
lengthened-IsUnit s h = elim (Bool-cases (ltb (length s) 3)) [
  | inl t ↦ rw t (
      All-take 24 (s ++ text "user")
        (All-append IsUnit s (text "user") h (refl, (refl, (refl, (refl, tt))))))
  | inr f ↦ rw f h
]

-- A user name with between 3 and 24 of the characters a-z, 0-9, the dot and the underscore.
pub record IsName (s : Text) : Type 0 where
  pub least : 3 ≤ length s
  pub most : length s ≤ 24
  pub units : All IsUnit s

lengthened-length : (s : Text) → 3 ≤ length (lengthened s)
lengthened-length s = elim (Bool-cases (ltb (length s) 3)) [
  | inl t ↦ rw (t, length-take 24 (s ++ text "user"), length-append s (text "user")) (ground arith)
  | inr f ↦ rw f (ground arith)
]

named : (s : Text) → 3 ≤ length s → length s ≤ 24 → All IsUnit s → IsName (or_user s)
named [] l m u = record {
  least = ground arith;
  most = ground arith;
  units = (refl, (refl, (refl, (refl, tt))));
}
named (c ∷ s) l m u = record { least = l; most = m; units = u }

-- Whatever the address is, usernameFromEmail makes a name of it with 3 to 24 characters, each a small
-- letter, a digit, a dot or an underscore.
pub username_from_email-IsName : (env : Env) (email : Text) → IsName (username_from_email env email)
unfolding username_from_email
username_from_email-IsName env email =
    let local = filter is_name_unit (env.lower (before_at email)) in
    let long = lengthened-length local in
    let cut = length-take 24 (lengthened local) in
    named (take 24 (lengthened local)) (ground arith) (ground arith) (
      All-take 24 (lengthened local)
        (lengthened-IsUnit local (All-self is_name_unit (env.lower (before_at email)))))
