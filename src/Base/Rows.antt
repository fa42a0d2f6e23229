-- ===== src/Base/Rows.antt =====
-- A collection of documents, as the list of its rows in insertion order. `find_row` is `findById`,
-- `save_row` is `row.save()` of a loaded row, and `key` reads the `_id`.
use Prim.Native.Nat.{ℕ}
use mathlib.Core.Path.{◌≡◌, refl, sym, subst, ◌∙◌}
use mathlib.Core.Logic.{◌≢◌, inl, inr}
use mathlib.Core.Bool.{Bool, true, false}
use mathlib.Core.Option.{Option, none, some}
use mathlib.Core.List.{List, [], ◌∷◌, ◌++◌}
use native.Mathlib.Omega.{arith}
use chatwave_backend.Base.Tests.{if◌then◌else◌, ◌==◌, Bool-cases, ==→eq, ==→ne, ==-refl, ==-false}
use chatwave_backend.Base.Lists.{All, filter, All-filter, All-append}

module _ {A : Type 0} (key : A → ℕ) where
  abbrev pub find_row : ℕ → List A → Option A
  find_row k [] = none
  find_row k (x ∷ xs) = if key x == k then some x else find_row k xs

  abbrev pub save_row : A → List A → List A
  save_row r [] = []
  save_row r (x ∷ xs) = if key x == key r then r ∷ xs else x ∷ save_row r xs

  -- No two rows share a key.
  abbrev pub Unique : List A → Type 0
  Unique [] = Unit
  Unique (x ∷ xs) = All (λ y. key y ≢ key x) xs × Unique xs

  pub key-find_row : (k : ℕ) (xs : List A) (x : A) → find_row k xs ≡ some x → key x ≡ k
  key-find_row k [] x e = cc
  key-find_row k (y ∷ xs) x e = ground (arith, key-find_row k xs x)

  pub find_row-save_self :
      (r : A) (xs : List A) (x : A)
      → find_row (key r) xs ≡ some x
      → find_row (key r) (save_row r xs) ≡ some r
  find_row-save_self r [] x e = cc
  find_row-save_self r (y ∷ xs) x e = elim (Bool-cases (key y == key r)) [
    | inl t ↦ rw (t, ==-refl (key r))
    | inr t ↦ rw (t, t) (find_row-save_self r xs x (rw t at e))
  ]

  pub find_row-save_ne :
      (k : ℕ) (r : A) (xs : List A) → k ≢ key r → find_row k (save_row r xs) ≡ find_row k xs
  find_row-save_ne k r [] h = refl
  find_row-save_ne k r (y ∷ xs) h = ground (arith, find_row-save_ne k r xs h)

  pub save_row-All : (P : A → Type 0) (r : A) (xs : List A) → P r → All P xs → All P (save_row r xs)
  save_row-All P r [] p h = tt
  save_row-All P r (y ∷ xs) p h =
      elim (key y == key r) as (λ b. All P (if b then r ∷ xs else y ∷ save_row r xs)) [
        | true ↦ (p, h.1)
        | false ↦ (h.0, save_row-All P r xs p h.1)
      ]

  save_row-fresh :
      (k : ℕ) (r : A) (xs : List A)
      → k ≢ key r
      → All (λ y. key y ≢ k) xs
      → All (λ y. key y ≢ k) (save_row r xs)
  save_row-fresh k r xs ne h = save_row-All (λ y. key y ≢ k) r xs (λ e. ne (sym e)) h

  save_row-keeps_fresh :
      (k : ℕ) (r : A) (xs : List A) → All (λ y. key y ≢ k) xs → All (λ y. key y ≢ k) (save_row r xs)
  save_row-keeps_fresh k r [] h = tt
  save_row-keeps_fresh k r (y ∷ xs) h = elim (Bool-cases (key y == key r)) [
    | inl e ↦ rw e ((λ q. h.0 (==→eq (key y) (key r) e ∙ q)), h.1)
    | inr e ↦ rw e (h.0, save_row-keeps_fresh k r xs h.1)
  ]

  pub save_row-Unique : (r : A) (xs : List A) → Unique xs → Unique (save_row r xs)
  save_row-Unique r [] u = tt
  save_row-Unique r (y ∷ xs) u = elim (Bool-cases (key y == key r)) [
    | inl e ↦ rw (e, ← ==→eq (key y) (key r) e) u
    | inr e ↦
        rw e (save_row-fresh (key y) r xs (==→ne (key y) (key r) e) u.0, save_row-Unique r xs u.1)
  ]

  pub find_row-All :
      (P : A → Type 0) (k : ℕ) (xs : List A) (x : A) → All P xs → find_row k xs ≡ some x → P x
  find_row-All P k [] x h e = cc
  find_row-All P k (y ∷ xs) x h e = elim (Bool-cases (key y == k)) [
    | inl t ↦ let same : y ≡ x = ground arith in subst P same h.0
    | inr t ↦ find_row-All P k xs x h.1 (rw t at e)
  ]

  pub find_row-append :
      (k : ℕ) (xs ys : List A) (x : A) → find_row k xs ≡ some x → find_row k (xs ++ ys) ≡ some x
  find_row-append k [] ys x e = cc
  find_row-append k (y ∷ xs) ys x e = ground (arith, find_row-append k xs ys x)

  fresh-filter :
      (k : ℕ) (p : A → Bool) (xs : List A)
      → All (λ y. key y ≢ k) xs
      → All (λ y. key y ≢ k) (filter p xs)
  fresh-filter k p xs h = All-filter (λ y. key y ≢ k) p xs h

  pub Unique-filter : (p : A → Bool) (xs : List A) → Unique xs → Unique (filter p xs)
  Unique-filter p [] u = tt
  Unique-filter p (x ∷ xs) u = elim (Bool-cases (p x)) [
    | inl e ↦ rw e (fresh-filter (key x) p xs u.0, Unique-filter p xs u.1)
    | inr e ↦ rw e (Unique-filter p xs u.1)
  ]

  pub Unique-snoc :
      (xs : List A) (x : A) → Unique xs → All (λ y. key y ≢ key x) xs → Unique (xs ++ x ∷ [])
  Unique-snoc [] x u h = (tt, tt)
  Unique-snoc (y ∷ xs) x u h = (
    All-append (λ z. key z ≢ key y) xs (x ∷ []) u.0 ((λ e. h.0 (sym e)), tt),
    Unique-snoc xs x u.1 h.1,
  )

  abbrev pub IsStored : List A → A → Type 0
  IsStored xs r = find_row (key r) xs ≡ some r

  IsStored-cons :
      (x : A) (xs ys : List A)
      → All (λ y. key y ≢ key x) ys
      → All (IsStored xs) ys
      → All (IsStored (x ∷ xs)) ys
  IsStored-cons x xs [] h k = tt
  IsStored-cons x xs (y ∷ ys) h k =
      (rw (==-false (key x) (key y) (λ e. h.0 (sym e))) k.0, IsStored-cons x xs ys h.1 k.1)

  -- Each row of a collection with unique keys is found by its key.
  pub All-IsStored : (xs : List A) → Unique xs → All (IsStored xs) xs
  All-IsStored [] u = tt
  All-IsStored (x ∷ xs) u = (rw (==-refl (key x)), IsStored-cons x xs xs u.0 (All-IsStored xs u.1))

  -- Saving one row leaves the other rows stored.
  pub save_row-IsStored :
      (r : A) (xs ys : List A)
      → All (λ y. key y ≢ key r) ys
      → All (IsStored xs) ys
      → All (IsStored (save_row r xs)) ys
  save_row-IsStored r xs [] h k = tt
  save_row-IsStored r xs (y ∷ ys) h k =
      (find_row-save_ne (key y) r xs h.0 ∙ k.0, save_row-IsStored r xs ys h.1 k.1)
