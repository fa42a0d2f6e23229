-- ===== src/World/Keeps.antt =====
-- An action keeps a predicate of the world if it holds after the action, return or throw, whenever it
-- held before: the rules by which the services' proofs follow their code.
use chatwave_backend.Base.{
  ◌⊎◌, inl, inr, ◌≡◌, refl, Bool, true, false, Option, none, some, List, [], ◌∷◌,
}
use chatwave_backend.World.State.{
  World, Exception, Result, ok, thrown, Action, pure, throw, gets, modify, and_then, ◌>>=◌, ◌>>◌,
  when, throw_if, or_throw, for_each, for_some, on_some, branch,
}

pub record Keeps {A : Type 0} (P : World → Type 0) (m : Action A) : Type 0 where
  pub apply : (w : World) → P w → P (m w).1

module _ (P : World → Type 0) where
  pub pure-Keeps : {A : Type 0} (a : A) → Keeps P (pure a)
  unfolding pure
  pure-Keeps a = record { apply = λ w h. h }

  pub throw-Keeps : {A : Type 0} (e : Exception) → Keeps P (throw {A = A} e)
  unfolding throw
  throw-Keeps e = record { apply = λ w h. h }

  pub gets-Keeps : {A : Type 0} (f : World → A) → Keeps P (gets f)
  unfolding gets
  gets-Keeps f = record { apply = λ w h. h }

  pub modify-Keeps : (f : World → World) → ((w : World) → P w → P (f w)) → Keeps P (modify f)
  unfolding modify
  modify-Keeps f h = record { apply = h }

  and_then-P :
      {A B : Type 0} (r : Result A × World) (f : A → Action B)
      → P r.1
      → ((a : A) → Keeps P (f a))
      → P (and_then r f).1
  unfolding and_then
  and_then-P (ok a, w) f h k = (k a).apply w h
  and_then-P (thrown e, w) f h k = h

  pub bind-Keeps :
      {A B : Type 0} {m : Action A} {f : A → Action B}
      → Keeps P m
      → ((a : A) → Keeps P (f a))
      → Keeps P (m >>= f)
  unfolding ◌>>=◌
  bind-Keeps {m} {f} h k = record { apply = λ w p. and_then-P (m w) f (h.apply w p) k }

  pub seq-Keeps :
      {A B : Type 0} {m : Action A} {k : Action B} → Keeps P m → Keeps P k → Keeps P (m >> k)
  unfolding ◌>>◌
  seq-Keeps h k = bind-Keeps h (λ _. k)

  pub when-Keeps : (c : Bool) {m : Action (Unit {0})} → Keeps P m → Keeps P (when c m)
  unfolding when
  when-Keeps true h = h
  when-Keeps false h = pure-Keeps tt

  pub throw_if-Keeps : (c : Bool) (e : Exception) → Keeps P (throw_if c e)
  unfolding throw_if
  throw_if-Keeps true e = throw-Keeps e
  throw_if-Keeps false e = pure-Keeps tt

  -- What follows a guard runs only where the guard lets it.
  pub guard-Keeps :
      {A : Type 0} (c : Bool) (e : Exception) {k : Action A}
      → (c ≡ false → Keeps P k)
      → Keeps P (throw_if c e >> k)
  unfolding throw_if throw ◌>>◌ ◌>>=◌ and_then
  guard-Keeps true e h = record { apply = λ w p. p }
  guard-Keeps false e {k} h = record { apply = λ w p. (h refl).apply w p }

  -- What follows `or_throw` has the value that was there.
  pub found-Keeps :
      {A B : Type 0} (o : Option A) (e : Exception) {f : A → Action B}
      → ((a : A) → o ≡ some a → Keeps P (f a))
      → Keeps P (or_throw o e >>= f)
  unfolding or_throw throw pure ◌>>=◌ and_then
  found-Keeps none e h = record { apply = λ w p. p }
  found-Keeps (some a) e h = record { apply = λ w p. (h a refl).apply w p }

  -- What follows an action that only reads may use what was read.
  pub read-Keeps :
      {A B : Type 0} {m : Action A} {f : A → Action B}
      → ((w : World)
          → P w
          → ((e : Exception) × (m w ≡ (thrown e, w)))
            ⊎ ((a : A) × (m w ≡ (ok a, w)) × Keeps P (f a)))
      → Keeps P (m >>= f)
  unfolding ◌>>=◌ and_then
  read-Keeps h = record {
    apply = λ w p. elim (h w p) [ inl (e, t) ↦ rw t p | inr (a, t, k) ↦ rw t (k.apply w p) ];
  }

  pub or_throw-Keeps : {A : Type 0} (o : Option A) (e : Exception) → Keeps P (or_throw o e)
  unfolding or_throw
  or_throw-Keeps none e = throw-Keeps e
  or_throw-Keeps (some a) e = pure-Keeps a

  pub for_each-Keeps :
      {A : Type 0} (xs : List A) {body : A → Action (Unit {0})}
      → ((a : A) → Keeps P (body a))
      → Keeps P (for_each xs body)
  unfolding for_each
  for_each-Keeps [] h = pure-Keeps tt
  for_each-Keeps (x ∷ xs) h = seq-Keeps (h x) (for_each-Keeps xs h)

  pub for_some-Keeps :
      {A : Type 0} (o : Option A) {body : A → Action (Unit {0})}
      → ((a : A) → Keeps P (body a))
      → Keeps P (for_some o body)
  unfolding for_some
  for_some-Keeps none h = pure-Keeps tt
  for_some-Keeps (some a) h = h a

  pub on_some-Keeps :
      {A B : Type 0} (o : Option A) (b : B) {rest : A → Action B}
      → ((a : A) → Keeps P (rest a))
      → Keeps P (on_some o b rest)
  unfolding on_some
  on_some-Keeps none b h = pure-Keeps b
  on_some-Keeps (some a) b h = h a

  pub branch-Keeps :
      {A : Type 0} (c : Bool) {m k : Action A} → Keeps P m → Keeps P k → Keeps P (branch c m k)
  unfolding branch
  branch-Keeps true h k = h
  branch-Keeps false h k = k
