-- ===== src/World/Hoare.antt =====
-- Triples over an invariant: from the invariant and a precondition, an action that returns ends in the
-- invariant and a postcondition on its result, and one that throws ends in the invariant.
use chatwave_backend.Base.{Bool, true, false, ◌≡◌, refl, Option, none, some}
use chatwave_backend.World.State.{
  World, Exception, Result, ok, thrown, Action, pure, throw, gets, modify, and_then, ◌>>=◌, ◌>>◌,
  throw_if, or_throw, on_some, branch,
}
use chatwave_backend.World.Keeps.{Keeps}

abbrev pub Post : {A : Type 0} → (World → Type 0) → (A → World → Type 0) → Result A × World → Type 0
Post I Q (ok a, w) = I w × Q a w
Post I Q (thrown e, w) = I w

pub record Hoare {A : Type 0} (I P : World → Type 0) (m : Action A) (Q : A → World → Type 0)
    : Type 0 where
  pub apply : (w : World) → I w → P w → Post I Q (m w)

abbrev pub Always : World → Type 0
Always w = Unit

abbrev pub Anything : {A : Type 0} → A → World → Type 0
Anything a w = Unit

module _ (I : World → Type 0) where
  module _ {A : Type 0} where
    and_then-Post :
        {B : Type 0} (r : Result A × World) (f : A → Action B) (Q : A → World → Type 0)
        (R : B → World → Type 0)
        → Post I Q r
        → ((a : A) → Hoare I (Q a) (f a) R)
        → Post I R (and_then r f)
    unfolding and_then
    and_then-Post (ok a, w) f Q R p k = (k a).apply w p.0 p.1
    and_then-Post (thrown e, w) f Q R p k = p

    Post-map :
        (r : Result A × World) (Q R : A → World → Type 0)
        → ((a : A) (w : World) → I w → Q a w → R a w)
        → Post I Q r
        → Post I R r
    Post-map (ok a, w) Q R h p = (p.0, h a w p.0 p.1)
    Post-map (thrown e, w) Q R h p = p

    Post-I : (r : Result A × World) (Q : A → World → Type 0) → Post I Q r → I r.1
    Post-I (ok a, w) Q p = p.0
    Post-I (thrown e, w) Q p = p

  module _ {A : Type 0} {P : World → Type 0} where
    pub framed : {m : Action A} → Keeps I m → Keeps P m → Hoare I P m (λ _. P)
    framed {m} h k = record { apply = λ w i p. both (m w) (h.apply w i) (k.apply w p) }
      where
        both : (r : Result A × World) → I r.1 → P r.1 → Post I (λ _. P) r
        both (ok a, w) i p = (i, p)
        both (thrown e, w) i p = i

    pub pure-Hoare :
        (a : A) {Q : A → World → Type 0} → ((w : World) → I w → P w → Q a w) → Hoare I P (pure a) Q
    unfolding pure
    pure-Hoare a h = record { apply = λ w i p. (i, h w i p) }

    pub gets-Hoare : (f : World → A) → Hoare I P (gets f) (λ a w. P w × (a ≡ f w))
    unfolding gets
    gets-Hoare f = record { apply = λ w i p. (i, (p, refl)) }

    pub or_throw-Hoare :
        (o : Option A) (e : Exception) → Hoare I P (or_throw o e) (λ a w. P w × (o ≡ some a))
    unfolding or_throw throw pure
    or_throw-Hoare none e = record { apply = λ w i p. i }
    or_throw-Hoare (some a) e = record { apply = λ w i p. (i, (p, refl)) }

    pub branch-Hoare :
        (c : Bool) {m k : Action A} {Q : A → World → Type 0}
        → (c ≡ true → Hoare I P m Q)
        → (c ≡ false → Hoare I P k Q)
        → Hoare I P (branch c m k) Q
    unfolding branch
    branch-Hoare true h k = h refl
    branch-Hoare false h k = k refl

    pub on_some-Hoare :
        {B : Type 0} (o : Option B) (a : A) {rest : B → Action A} {Q : A → World → Type 0}
        → (o ≡ none → (w : World) → P w → Q a w)
        → ((b : B) → o ≡ some b → Hoare I P (rest b) Q)
        → Hoare I P (on_some o a rest) Q
    unfolding on_some pure
    on_some-Hoare none a h k = record { apply = λ w i p. (i, h refl w p) }
    on_some-Hoare (some b) a h k = k b refl

    pub bind-Hoare :
        {B : Type 0} {m : Action A} {f : A → Action B} {Q : A → World → Type 0}
        {R : B → World → Type 0}
        → Hoare I P m Q
        → ((a : A) → Hoare I (Q a) (f a) R)
        → Hoare I P (m >>= f) R
    unfolding ◌>>=◌
    bind-Hoare {m} {f} {Q} {R} h k = record {
      apply = λ w i p. and_then-Post (m w) f Q R (h.apply w i p) k;
    }

    pub seq-Hoare :
        {B : Type 0} {m : Action A} {k : Action B} {Q : World → Type 0} {R : B → World → Type 0}
        → Hoare I P m (λ _. Q)
        → Hoare I Q k R
        → Hoare I P (m >> k) R
    unfolding ◌>>◌
    seq-Hoare h k = bind-Hoare h (λ _. k)

    pub weaken :
        {m : Action A} {Q R : A → World → Type 0}
        → Hoare I P m Q
        → ((a : A) (w : World) → I w → Q a w → R a w)
        → Hoare I P m R
    weaken {m} {Q} {R} h k = record { apply = λ w i p. Post-map (m w) Q R k (h.apply w i p) }

    pub strengthen :
        {P' : World → Type 0} {m : Action A} {Q : A → World → Type 0}
        → Hoare I P m Q
        → ((w : World) → I w → P' w → P w)
        → Hoare I P' m Q
    strengthen h k = record { apply = λ w i p. h.apply w i (k w i p) }

    pub keeps_of :
        {m : Action A} {Q : A → World → Type 0}
        → Hoare I P m Q
        → (w : World) → I w
        → P w
        → I (m w).1
    keeps_of {m} {Q} h w i p = Post-I (m w) Q (h.apply w i p)

  pub throw_if-Hoare :
      (c : Bool) (e : Exception) {P : World → Type 0}
      → Hoare I P (throw_if c e) (λ _ w. P w × (c ≡ false))
  unfolding throw_if throw pure
  throw_if-Hoare true e = record { apply = λ w i p. i }
  throw_if-Hoare false e = record { apply = λ w i p. (i, (p, refl)) }

  pub modify-Hoare :
      (f : World → World) {P : World → Type 0} {R : World → Type 0}
      → ((w : World) → I w → P w → I (f w) × R (f w))
      → Hoare I P (modify f) (λ _. R)
  unfolding modify
  modify-Hoare f h = record { apply = λ w i p. h w i p }

  pub with_fact :
      {A : Type 0} {P : World → Type 0} {F : Type 0} {m : Action A} {Q : A → World → Type 0}
      → (F → Hoare I P m Q)
      → Hoare I (λ w. P w × F) m Q
  with_fact h = record { apply = λ w i p. (h p.1).apply w i p.0 }

  pub Keeps-of_Hoare :
      {A : Type 0} {m : Action A} {Q : A → World → Type 0} → Hoare I Always m Q → Keeps I m
  Keeps-of_Hoare h = record { apply = λ w i. keeps_of h w i tt }
