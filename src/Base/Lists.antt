-- ===== src/Base/Lists.antt =====
-- The array methods that the services use, over the native numbers and Boolean tests, and the
-- predicates and lemmas on them.
use Prim.Native.Nat.{ℕ, zero, suc}
use mathlib.Core.Path.{◌≡◌, refl, subst}
use mathlib.Core.Logic.{◌⊎◌, inl, inr}
use mathlib.Core.Bool.{Bool, true, false, ◌||◌}
use mathlib.Core.Option.{Option, none, some}
use mathlib.Core.List.{List, [], ◌∷◌, ◌++◌, map}
use native.Mathlib.Omega.{arith}
use chatwave_backend.Base.Tests.{if◌then◌else◌, ◌==◌, Bool-cases}

module _ {ℓ} {A : Type ℓ} where
  abbrev pub length : List A → ℕ
  length [] = 0
  length (x ∷ xs) = suc (length xs)

  abbrev pub take : ℕ → List A → List A
  take zero xs = []
  take (suc n) [] = []
  take (suc n) (x ∷ xs) = x ∷ take n xs

  -- `xs.filter(p)`
  abbrev pub filter : (A → Bool) → List A → List A
  filter p [] = []
  filter p (x ∷ xs) = if p x then x ∷ filter p xs else filter p xs

  -- `xs.find(p)`
  abbrev pub find : (A → Bool) → List A → Option A
  find p [] = none
  find p (x ∷ xs) = if p x then some x else find p xs

  -- `xs.some(p)`
  abbrev pub any : (A → Bool) → List A → Bool
  any p [] = false
  any p (x ∷ xs) = p x || any p xs

  -- `xs[0]`
  abbrev pub head? : List A → Option A
  head? [] = none
  head? (x ∷ xs) = some x

  -- the object that `find` returned, mutated in place
  abbrev pub update_first : (A → Bool) → (A → A) → List A → List A
  update_first p f [] = []
  update_first p f (x ∷ xs) = if p x then f x ∷ xs else x ∷ update_first p f xs

  abbrev pub All {κ} : (A → Type κ) → List A → Type κ
  All P [] = Unit
  All P (x ∷ xs) = P x × All P xs

  abbrev pub Any : (A → Type 0) → List A → Type 0
  Any P [] = ⊥
  Any P (x ∷ xs) = P x ⊎ Any P xs

abbrev pub mem : ℕ → List ℕ → Bool
mem a xs = any (λ x. x == a) xs

-- `[...new Set(xs)]`: each value at its first place
abbrev pub dedup_from : List ℕ → List ℕ → List ℕ
dedup_from seen [] = []
dedup_from seen (x ∷ xs) = if mem x seen then dedup_from seen xs else x ∷ dedup_from (x ∷ seen) xs

abbrev pub dedup : List ℕ → List ℕ
dedup xs = dedup_from [] xs

module _ {ℓ κ} {A : Type ℓ} (P : A → Type κ) where
  pub All-append : (xs ys : List A) → All P xs → All P ys → All P (xs ++ ys)
  All-append [] ys h k = k
  All-append (x ∷ xs) ys (p, h) k = (p, All-append xs ys h k)

  pub All-filter : (p : A → Bool) (xs : List A) → All P xs → All P (filter p xs)
  All-filter p [] h = tt
  All-filter p (x ∷ xs) (q, h) =
      elim (p x) as (λ b. All P (if b then x ∷ filter p xs else filter p xs)) [
        | true ↦ (q, All-filter p xs h)
        | false ↦ All-filter p xs h
      ]

  pub All-find : (p : A → Bool) (xs : List A) (x : A) → All P xs → find p xs ≡ some x → P x
  All-find p [] x h e = cc
  All-find p (y ∷ xs) x h e = elim (Bool-cases (p y)) [
    | inl t ↦ let same : y ≡ x = ground arith in subst P same h.0
    | inr t ↦ All-find p xs x h.1 (rw t at e)
  ]

pub map-update_first {ℓ κ} :
    {A : Type ℓ} {B : Type κ} (g : A → B) (p : A → Bool) (f : A → A) (xs : List A)
    → ((x : A) → g (f x) ≡ g x)
    → map g (update_first p f xs) ≡ map g xs
map-update_first g p f [] h = refl
map-update_first g p f (x ∷ xs) h = elim (Bool-cases (p x)) [
  | inl e ↦ rw (e, h x)
  | inr e ↦ rw (e, map-update_first g p f xs h)
]

module _ {ℓ} {A : Type ℓ} (q : A → Bool) (f : A → A)
    (back : (x : A) → q (f x) ≡ true → q x ≡ true) where
  pub any-map_back : (xs : List A) → any q (map f xs) ≡ true → any q xs ≡ true
  any-map_back [] h = h
  any-map_back (x ∷ xs) h = ground (arith, back x, any-map_back xs)

  pub any-update_back :
      (p : A → Bool) (xs : List A) → any q (update_first p f xs) ≡ true → any q xs ≡ true
  any-update_back p [] h = h
  any-update_back p (x ∷ xs) h = elim (Bool-cases (p x)) [
    | inl e ↦ or_back (q (f x)) (q x) (any q xs) (back x) (rw e at h)
    | inr e ↦
        or_tail (q x) (any q (update_first p f xs)) (any q xs) (any-update_back p xs) (rw e at h)
  ]
    where
      or_back : (a b c : Bool) → (a ≡ true → b ≡ true) → a || c ≡ true → b || c ≡ true
      or_back a b c k h = ground arith

      or_tail : (a b c : Bool) → (b ≡ true → c ≡ true) → a || b ≡ true → a || c ≡ true
      or_tail a b c k h = ground arith
