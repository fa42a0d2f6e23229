-- ===== src/Auth/Throttle.antt =====
-- How many reset codes src/auth/auth.service.ts mails, and how often one of them works.
use chatwave_backend.Base.{
  ℕ, ◌+◌, ◌-◌, ◌≡◌, ◌≤◌, refl, ap, sym, subst, Bool, true, false, not, Option, none, some, List, [],
  ◌∷◌, ◌++◌, ltb, ◌==◌, if◌then◌else◌, find, filter, Option-cases, Bool-cases, inl, inr, arith,
  and_true, ==→eq, ◌&&◌, ◌∙◌, All,
}
use chatwave_backend.Base.Text.{Text, text_eq}
use chatwave_backend.Env.{Env}
use chatwave_backend.World.State.{
  World, Emit, OtpCount, gets, pure, throw, throw_if, and_then, ◌>>=◌, ◌>>◌, modify, on_some,
}
use chatwave_backend.World.Effects.{emit, fresh_id}
use chatwave_backend.Users.Signup.{find_by_email, email_key}
use chatwave_backend.Auth.Codes.{
  otp_max, otp_window, next_count, otp_count_of, bump_otp_count, increment_otp_count, set_otp_hash,
}
use chatwave_backend.Auth.Service.{forgot_password, send_otp, if_open}

-- The codes that were mailed to an address.
abbrev is_otp_for : Text → Emit → Bool
is_otp_for email (Emit.mail_otp to otp) = text_eq to email
is_otp_for email _ = false

unfoldable pub codes_mailed : Text → List Emit → ℕ
codes_mailed email [] = 0
codes_mailed email (e ∷ es) =
    if is_otp_for email e then codes_mailed email es + 1 else codes_mailed email es

-- A request for a code, and when it comes.
pub record Ask : Type 0 where
  pub time : ℕ
  pub email : Text

text_eq_refl : (s : Text) → text_eq s s ≡ true
text_eq_refl [] = refl
text_eq_refl (c ∷ s) = ground (arith, text_eq_refl s)

text_eq→eq : (s t : Text) → text_eq s t ≡ true → s ≡ t
text_eq→eq [] [] h = refl
text_eq→eq [] (d ∷ t) h = absurd (ground arith)
text_eq→eq (c ∷ s) [] h = absurd (ground arith)
text_eq→eq (c ∷ s) (d ∷ t) h =
    let (a, b) = and_true (c == d) (text_eq s t) h in
    let same = ==→eq c d a in let rest = text_eq→eq s t b in cc

codes_mailed-snoc :
    (email : Text) (es : List Emit) (e : Emit)
    → codes_mailed email (es ++ e ∷ [])
      ≡ codes_mailed email es + (if is_otp_for email e then 1 else 0)
unfolding codes_mailed
codes_mailed-snoc email [] e = ground arith
codes_mailed-snoc email (x ∷ es) e = ground (arith, codes_mailed-snoc email es e)

-- The counter of an address, which Redis gives until it expires.
pub record Counter (email : Text) (w : World) (c : OtpCount) : Type 0 where
  pub owner : text_eq c.email email ≡ true
  pub given :
      (t : ℕ)
      → ltb t c.expires_at ≡ true
      → find (λ k. text_eq k.email email && ltb t k.expires_at) w.otp_counts ≡ some c

module _ (env : Env) where
  abbrev pub at_time : ℕ → World → World
  at_time t w = record w { now = t }

  -- The world after a list of requests, each with what it does before it answers or throws.
  unfoldable pub ask_all : List Ask → World → World
  ask_all [] w = w
  ask_all (a ∷ rest) w = ask_all rest (forgot_password env a.email (at_time a.time w)).1

  -- What one request does to the counters and to the codes mailed.
  record Asked (email : Text) (w : World) : Type 0 where
    counts : (forgot_password env email w).1.otp_counts ≡ (bump_otp_count email w).otp_counts
    others :
        (to : Text)
        → text_eq email to ≡ false
        → codes_mailed to (forgot_password env email w).1.outbox ≡ codes_mailed to w.outbox
    most :
        codes_mailed email (forgot_password env email w).1.outbox ≤ codes_mailed email w.outbox + 1
    limited :
        ltb otp_max (next_count w.now email (otp_count_of email w)).count ≡ true
        → codes_mailed email (forgot_password env email w).1.outbox ≡ codes_mailed email w.outbox

  forgot_password-Asked : (email : Text) (w : World) → Asked email w
  unfolding forgot_password increment_otp_count bump_otp_count find_by_email send_otp set_otp_hash
      otp_count_of emit fresh_id throw_if throw on_some ◌>>=◌ ◌>>◌ gets pure modify and_then
  forgot_password-Asked email w =
      elim (Bool-cases (ltb otp_max (next_count w.now email (otp_count_of email w)).count)) [
        | inl t ↦ record {
          counts = rw t refl;
          others = λ to ne. rw t refl;
          most = rw t (ground arith);
          limited = λ h. rw t refl;
        }
        | inr f ↦
            elim (Option-cases
              (if_open env (find (λ u. text_eq u.email (email_key env email)) w.users))) [
                | inl n ↦ record {
                  counts = rw (f, n) refl;
                  others = λ to ne. rw (f, n) refl;
                  most = rw (f, n) (ground arith);
                  limited = λ h. absurd (ground arith);
                }
                | inr (u, n) ↦ record {
                  counts = rw (f, n) refl;
                  others =
                      λ to ne. rw (f, n) (codes_mailed-snoc to w.outbox _ ∙ rw ne (ground arith));
                  most =
                      rw (f, n, codes_mailed-snoc email w.outbox, text_eq_refl email)
                        (ground arith);
                  limited = λ h. absurd (ground arith);
                }
              ]
      ]

module _ {A : Type 0} (q p : A → Bool) where
  find-filter :
      (xs : List A) → ((x : A) → q x ≡ true → p x ≡ true) → find q (filter p xs) ≡ find q xs
  find-filter [] h = refl
  find-filter (x ∷ xs) h = elim (Bool-cases (p x)) [
    | inl t ↦ ground (arith, find-filter xs h)
    | inr f ↦ elim (Bool-cases (q x)) [
      | inl t ↦ let held = h x t in absurd (ground arith)
      | inr g ↦ rw (f, g) (find-filter xs h)
    ]
  ]

find-holds : {A : Type 0} (q : A → Bool) (xs : List A) (x : A) → find q xs ≡ some x → q x ≡ true
find-holds q [] x h = absurd (ground arith)
find-holds q (y ∷ ys) x h = elim (Bool-cases (q y)) [
  | inl t ↦ let is : y ≡ x = ground arith in subst (λ z. q z ≡ true) is t
  | inr f ↦ find-holds q ys x (rw f at h)
]

abbrev live_of : Text → ℕ → OtpCount → Bool
live_of email t k = text_eq k.email email && ltb t k.expires_at

-- The counter that a request from another address writes is not the address's.
next_count-other :
    (email to : Text) (t now : ℕ) (o : Option OtpCount)
    → text_eq to email ≡ false
    → ((k : OtpCount) → o ≡ some k → text_eq k.email to ≡ true)
    → text_eq (next_count now to o).email email ≡ false
next_count-other email to t now none ne h = ne
next_count-other email to t now (some k) ne h =
    let same = text_eq→eq k.email to (h k refl) in rw same ne

bump_other :
    (email to : Text) (w : World) (c : OtpCount)
    → text_eq to email ≡ false
    → Counter email w c
    → Counter email (bump_otp_count to w) c
unfolding bump_otp_count otp_count_of
bump_other email to w c ne h = record {
  owner = h.owner;
  given = λ t fresh.
      let kept =
        find-filter (live_of email t) (λ k. not (text_eq k.email to)) w.otp_counts
          (λ k q. differs k.email t k.expires_at q) in
      let head =
        next_count-other email to t w.now (find (live_of to w.now) w.otp_counts) ne (λ k at.
          (and_true (text_eq k.email to) (ltb w.now k.expires_at)
            (find-holds (live_of to w.now) w.otp_counts k at)).0) in
      rw head (kept ∙ h.given t fresh);
}
  where
    clash : (a b : Bool) → a ≡ b → a ≡ true → b ≡ false → ⊥
    clash a b e f g = ground arith

    differs : (k : Text) (t e : ℕ) → text_eq k email && ltb t e ≡ true → not (text_eq k to) ≡ true
    differs k t e q = elim (Bool-cases (text_eq k to)) [
      | inl s ↦
          let same = text_eq→eq k to s in
          let (mine, live) = and_true (text_eq k email) (ltb t e) q in
          absurd
            (clash (text_eq k email) (text_eq to email) (ap (λ z. text_eq z email) same) mine ne)
      | inr f ↦ rw f refl
    ]

bump_self :
    (email : Text) (w : World) (c : OtpCount)
    → ltb w.now c.expires_at ≡ true
    → Counter email w c
    → (next_count w.now email (otp_count_of email w) ≡ record c { count = c.count + 1 })
      × Counter email (bump_otp_count email w) (record c { count = c.count + 1 })
unfolding bump_otp_count otp_count_of
bump_self email w c fresh h =
    let here = h.given w.now fresh in
    let mine = h.owner in
    (rw here refl, record { owner = mine; given = λ t live. rw (here, mine, live) refl })

bump_first :
    (email : Text) (w : World)
    → otp_count_of email w ≡ none
    → Counter email
        (bump_otp_count email w)
        (record { email = email; count = 1; expires_at = w.now + otp_window })
unfolding bump_otp_count
bump_first email w absent =
    let mine = text_eq_refl email in
    record { owner = mine; given = λ t live. rw (absent, mine, live) refl }

Counter-same :
    (email : Text) (w after : World) (c : OtpCount)
    → after.otp_counts ≡ w.otp_counts
    → Counter email w c
    → Counter email after c
Counter-same email w after c same h = record {
  owner = h.owner;
  given = λ t live. rw same (h.given t live);
}

-- The count of one request against what the limit still lets through.
budget :
    (x y z n : ℕ)
    → (ltb otp_max (n + 1) ≡ true → y ≡ z)
    → y ≤ z + 1
    → x ≤ y + (5 - (n + 1))
    → x ≤ z + (5 - n)
budget x y z n over most rest = elim (Bool-cases (ltb otp_max (n + 1))) [
  | inl t ↦ let same = over t in ground arith
  | inr f ↦ ground arith
]

abbrev left_of : OtpCount → ℕ
left_of c = 5 - c.count

module _ (env : Env) where
  codes_mailed-counted :
      (email : Text) (asks : List Ask) (w : World) (c : OtpCount)
      → Counter email w c
      → All (λ a. ltb a.time c.expires_at ≡ true) asks
      → codes_mailed email (ask_all env asks w).outbox ≤ codes_mailed email w.outbox + left_of c
  unfolding ask_all
  codes_mailed-counted email [] w c h fresh = ground arith
  codes_mailed-counted email (a ∷ rest) w c h (first, fresh) =
      let at = at_time env a.time w in
      let after = (forgot_password env a.email at).1 in
      let asked = forgot_password-Asked env a.email at in
      let same = asked.counts in
      elim (Bool-cases (text_eq a.email email)) [
        | inr other ↦
            let kept = asked.others email other in
            let more =
              codes_mailed-counted email rest after c
                (Counter-same email (bump_otp_count a.email at) after c same
                  (bump_other email a.email at c other (Counter-same email w at c refl h)))
                fresh in
            ground arith
        | inl mine ↦
            let is = text_eq→eq a.email email mine in
            subst
              (λ e.
                codes_mailed e (ask_all env rest after).outbox
                ≤ codes_mailed e w.outbox + left_of c)
              is
              (let h' = subst (λ e. Counter e w c) (sym is) h in
                let (count, next) =
                  bump_self a.email at c first (Counter-same a.email w at c refl h') in
                let more =
                  codes_mailed-counted a.email rest after (record c { count = c.count + 1 })
                    (Counter-same a.email (bump_otp_count a.email at) after _ same next) fresh in
                let most = asked.most in
                let limited = rw count at asked.limited in
                budget (codes_mailed a.email (ask_all env rest after).outbox)
                  (codes_mailed a.email after.outbox) (codes_mailed a.email w.outbox) c.count
                  limited most more)
      ]

  -- From an address without a counter, the requests that come from the first one on and before fifteen
  -- minutes are over, of this and of other addresses, mail at most five codes to the address.
  pub codes_mailed-ask_all :
      (email : Text) (start : ℕ) (asks : List Ask) (w : World)
      → otp_count_of email (at_time env start w) ≡ none
      → All (λ a. ltb a.time (start + otp_window) ≡ true) asks
      → codes_mailed email (ask_all env (record { time = start; email = email } ∷ asks) w).outbox
        ≤ codes_mailed email w.outbox + 5
  unfolding ask_all
  codes_mailed-ask_all email start asks w absent fresh =
      let at = at_time env start w in
      let after = (forgot_password env email at).1 in
      let asked = forgot_password-Asked env email at in
      let same = asked.counts in
      let most = asked.most in
      let more =
        codes_mailed-counted email asks after _
          (Counter-same email (bump_otp_count email at) after _ same (bump_first email at absent))
          fresh in
      numbers (codes_mailed email (ask_all env asks after).outbox) (codes_mailed email after.outbox)
        (codes_mailed email w.outbox) most more
    where
      numbers : (x y z : ℕ) → y ≤ z + 1 → x ≤ y + (5 - 1) → x ≤ z + 5
      numbers x y z h k = omega arith
