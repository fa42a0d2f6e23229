-- ===== src/Conversations/Pairs.antt =====
-- The key of a direct chat names the pair of its users, whoever opened it: `pairKey` of
-- src/conversations/conversations.constants.ts as a function of unordered pairs.
use mathlib.Core.Quot
use mathlib.Core.Quot.{Quot, Quot-set}
use chatwave_backend.Base.{
  ℕ, ◌≡◌, ◌≢◌, refl, ◌⊎◌, inl, inr, arith, All, true, false, [], ◌∷◌, ◌++◌, Bool-cases,
}
use chatwave_backend.Base.Text.{Text, text_ltb}
use chatwave_backend.Env.{Env}
use chatwave_backend.Conversations.Preview.{pair_key, joined}

-- There is no colon in the text.
abbrev pub IsPlain : Text → Type 0
IsPlain s = All (λ c. c ≢ 58) s

-- What ObjectIds are: their strings have no colon, and no two of them have the same string.
pub record HasKeys (env : Env) : Type 0 where
  pub plain : (id : ℕ) → IsPlain (env.id_text id)
  pub distinct : (a b : ℕ) → env.id_text a ≡ env.id_text b → a ≡ b

text_ltb_asym : (s t : Text) → text_ltb s t ≡ true → text_ltb t s ≡ false
text_ltb_asym [] [] e = refl
text_ltb_asym [] (y ∷ t) e = refl
text_ltb_asym (x ∷ s) [] e = absurd (ground arith)
text_ltb_asym (x ∷ s) (y ∷ t) e = ground (arith, text_ltb_asym s t)

text_ltb_total : (s t : Text) → text_ltb s t ≡ false → text_ltb t s ≡ false → s ≡ t
text_ltb_total [] [] e f = refl
text_ltb_total [] (y ∷ t) e f = absurd (ground arith)
text_ltb_total (x ∷ s) [] e f = absurd (ground arith)
text_ltb_total (x ∷ s) (y ∷ t) e f = ground (arith, text_ltb_total s t)

joined_comm : (s t : Text) → joined s t ≡ joined t s
joined_comm s t = elim (Bool-cases (text_ltb t s)) [
  | inl e ↦ let f = text_ltb_asym t s e in rw (e, f) refl
  | inr e ↦ elim (Bool-cases (text_ltb s t)) [
    | inl f ↦ rw (e, f) refl
    | inr f ↦ let same = text_ltb_total s t f e in rw (e, f, same) refl
  ]
]

-- The first colon ends the first of the two texts.
split : (s u t v : Text) → IsPlain s → IsPlain u → s ++ 58 ∷ t ≡ u ++ 58 ∷ v → (s ≡ u) × (t ≡ v)
split [] [] t v p q e = ground arith
split [] (y ∷ u) t v p q e = absurd (let no = q.0 in ground arith)
split (x ∷ s) [] t v p q e = absurd (let no = p.0 in ground arith)
split (x ∷ s) (y ∷ u) t v p q e =
    let tails : s ++ 58 ∷ t ≡ u ++ 58 ∷ v = ground arith in
    let rest = split s u t v p.1 q.1 tails in let r0 = rest.0 in let r1 = rest.1 in ground arith

joined-injective :
    (s t u v : Text)
    → IsPlain s
    → IsPlain t
    → IsPlain u
    → IsPlain v
    → joined s t ≡ joined u v
    → ((s ≡ u) × (t ≡ v)) ⊎ ((s ≡ v) × (t ≡ u))
joined-injective s t u v ps pt pu pv e = elim (Bool-cases (text_ltb t s)) [
  | inl a ↦ elim (Bool-cases (text_ltb v u)) [
    | inl b ↦ let eq = rw (a, b) at e in let both = split t v s u pt pv eq in inl (both.1, both.0)
    | inr b ↦ let eq = rw (a, b) at e in let both = split t u s v pt pu eq in inr (both.1, both.0)
  ]
  | inr a ↦ elim (Bool-cases (text_ltb v u)) [
    | inl b ↦ let eq = rw (a, b) at e in inr (split s v t u ps pv eq)
    | inr b ↦ let eq = rw (a, b) at e in inl (split s u t v ps pu eq)
  ]
]

-- The same two users, in either order.
abbrev pub SameUsers : ℕ × ℕ → ℕ × ℕ → Type 0
SameUsers p q = ((p.0 ≡ q.0) × (p.1 ≡ q.1)) ⊎ ((p.0 ≡ q.1) × (p.1 ≡ q.0))

abbrev pub UserPair : Type 0
UserPair = Quot SameUsers

module _ (env : Env) where
  abbrev pub key_of : ℕ × ℕ → Text
  key_of p = pair_key env p.0 p.1

  pub key_of-SameUsers : (p q : ℕ × ℕ) → SameUsers p q → key_of p ≡ key_of q
  key_of-SameUsers p q (inl h) = let a = h.0 in let b = h.1 in rw (a, b) refl
  key_of-SameUsers p q (inr h) =
      let a = h.0 in let b = h.1 in rw (a, b) (joined_comm (env.id_text q.1) (env.id_text q.0))

  SameUsers-key_of : (p q : ℕ × ℕ) → HasKeys env → key_of p ≡ key_of q → SameUsers p q
  SameUsers-key_of p q k e =
      elim (joined-injective (env.id_text p.0) (env.id_text p.1) (env.id_text q.0) (env.id_text q.1)
        (k.plain p.0) (k.plain p.1) (k.plain q.0) (k.plain q.1) e) [
          | inl h ↦ inl (k.distinct p.0 q.0 h.0, k.distinct p.1 q.1 h.1)
          | inr h ↦ inr (k.distinct p.0 q.1 h.0, k.distinct p.1 q.0 h.1)
        ]

  unfoldable pub direct_key : UserPair → Text
  direct_key = Quot.lift (hlevel) key_of key_of-SameUsers

-- The key is a function of the unordered pair of users; and where the strings of ids have no colon and
-- are distinct, chats with the same key are of the same two users.
pub direct_key-injective :
    (env : Env) → HasKeys env → (x y : UserPair) → direct_key env x ≡ direct_key env y → x ≡ y
unfolding direct_key
direct_key-injective env k =
    Quot.ind (λ x. hlevel (Quot-set))
      (λ p. Quot.ind (λ y. hlevel (Quot-set)) (λ q e. Quot.sound (SameUsers-key_of env p q k e)))
