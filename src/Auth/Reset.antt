-- ===== src/Auth/Reset.antt =====
-- What a reset of the password leaves (`resetPassword` of src/auth/auth.service.ts).
use chatwave_backend.Base.{
  ℕ, ◌≡◌, ◌≢◌, refl, sym, ap, subst, ◌∙◌, Bool, not, Option, none, some, List, [], ◌∷◌, find,
  filter, Bool-cases, inl, inr,
}
use chatwave_backend.Base.Text.{Text, text_eq}
use chatwave_backend.Env.{Env}
use chatwave_backend.Schema.User.{User}
use chatwave_backend.World.State.{World, ok, Action}
use chatwave_backend.World.Keeps.{
  Keeps, gets-Keeps, modify-Keeps, seq-Keeps, bind-Keeps, pure-Keeps, throw_if-Keeps,
}
use chatwave_backend.World.Effects.{fresh_id}
use chatwave_backend.World.Hoare.{
  Hoare, Post, framed, gets-Hoare, or_throw-Hoare, bind-Hoare, seq-Hoare, weaken, strengthen,
  modify-Hoare, with_fact,
}
use chatwave_backend.Users.Signup.{find_by_email, email_key}
use chatwave_backend.Users.Store.{save_user, assert_unique, update_user}
use chatwave_backend.Auth.Sessions.{delete_all_sessions}
use chatwave_backend.Auth.Codes.{delete_otp, get_otp_hash}
use chatwave_backend.Auth.Index.{IsIndexed}
use chatwave_backend.Auth.Revoked.{resolve-delete_all}
use chatwave_backend.Auth.Service.{assert_allowed, reset_password, revoke_all}
use chatwave_backend.Auth.Guard.{Credentials}
use chatwave_backend.Auth.Guard.{resolve}

abbrev Any : World → Type 0
Any w = Unit

find-filter : {A : Type 0} (p : A → Bool) (xs : List A) → find p (filter (λ x. not (p x)) xs) ≡ none
find-filter p [] = refl
find-filter p (x ∷ xs) = elim (Bool-cases (p x)) [
  | inl t ↦ rw t (find-filter p xs)
  | inr f ↦ rw (f, f) (find-filter p xs)
]

get_otp_hash-delete_otp :
    (email : Text) (w : World) → get_otp_hash email (delete_otp email w) ≡ none
unfolding get_otp_hash delete_otp
get_otp_hash-delete_otp email w = rw (find-filter (λ k. text_eq k.email email) w.otps) refl

module _ (begin : World) where
  abbrev Intact : World → Type 0
  Intact w = (w.now ≡ begin.now) × (w.sessions ≡ begin.sessions)

  intact : {A : Type 0} {m : Action A} → Keeps Intact m → Hoare Any Intact m (λ _. Intact)
  intact k = framed Any (record { apply = λ w i. tt }) k

  fresh_id-Intact : Keeps Intact fresh_id
  unfolding fresh_id
  fresh_id-Intact = record { apply = λ w i. i }

  assert_allowed-Intact : (u : User) → Keeps Intact (assert_allowed u)
  unfolding assert_allowed
  assert_allowed-Intact u = seq-Keeps Intact (throw_if-Keeps Intact _ _) (throw_if-Keeps Intact _ _)

  delete_otp-Intact : (email : Text) (w : World) → Intact w → Intact (delete_otp email w)
  unfolding delete_otp
  delete_otp-Intact email w i = i

  save_user-Intact : (f : User → User) (u : User) → Keeps Intact (save_user f u)
  unfolding save_user assert_unique update_user
  save_user-Intact f u =
      seq-Keeps Intact
        (bind-Keeps Intact (gets-Keeps Intact _) λ us.
          seq-Keeps Intact (throw_if-Keeps Intact _ _)
            (seq-Keeps Intact (throw_if-Keeps Intact _ _) (throw_if-Keeps Intact _ _)))
        (seq-Keeps Intact (modify-Keeps Intact _ (λ w i. i)) (pure-Keeps Intact _))

-- What a world has once a reset has returned.
pub record IsReset (begin : World) (email : Text) (user : ℕ) (w : World) : Type 0 where
  pub same : w.now ≡ begin.now
  pub gone : w.sessions ≡ delete_all_sessions begin.now user begin.sessions
  pub spent : get_otp_hash email w ≡ none

module _ (env : Env) (begin : World) (email otp password : Text) (row : User)
    (here : find (λ u. text_eq u.email (email_key env email)) begin.users ≡ some row) where
  revoked :
      (r : User) (w : World)
      → r ≡ row
      → Intact begin w
      → get_otp_hash email w ≡ none
      → IsReset begin email row.id (revoke_all r.id w)
  unfolding revoke_all get_otp_hash
  revoked r w is (same, kept) spent = record {
    same = same;
    gone =
        rw (same, kept)
          (ap (λ u. delete_all_sessions begin.now u begin.sessions) (ap (λ u. u.id) is));
    spent = spent;
  }

  fact :
      (found : Option User) (r : User) (w : World)
      → w ≡ begin
      → found ≡ find (λ u. text_eq u.email (email_key env email)) w.users
      → found ≡ some r
      → Intact begin w × (r ≡ row)
  fact found r w at read is =
      let both : some r ≡ some row =
        sym is
        ∙ (read
            ∙ (ap (λ v. find (λ u. text_eq u.email (email_key env email)) v.users) at ∙ here)) in
      ((ap (λ v. v.now) at, ap (λ v. v.sessions) at), cc)

  reset_password-Hoare :
      Hoare Any
        (λ w. w ≡ begin)
        (reset_password env email otp password)
        (λ _. IsReset begin email row.id)
  unfolding reset_password find_by_email revoke_all
  reset_password-Hoare = bind-Hoare Any (gets-Hoare Any _) λ found.
      bind-Hoare Any (or_throw-Hoare Any found _) λ r.
        strengthen Any
          (with_fact Any {P = Intact begin} {F = r ≡ row} λ is.
            bind-Hoare Any (intact begin (gets-Keeps (Intact begin) (get_otp_hash email))) λ stored.
              bind-Hoare Any (weaken Any (or_throw-Hoare Any stored _) (λ h w t p. p.0)) λ hash.
                seq-Hoare Any (intact begin (assert_allowed-Intact begin r)) (
                  seq-Hoare Any (intact begin (throw_if-Keeps (Intact begin) _ _)) (
                    bind-Hoare Any (intact begin (fresh_id-Intact begin)) λ salt.
                      seq-Hoare Any (intact begin (save_user-Intact begin _ r)) (
                        seq-Hoare Any
                          (modify-Hoare Any (delete_otp email)
                            {R = λ w. Intact begin w × (get_otp_hash email w ≡ none)}
                            (λ w t i. (
                              tt,
                              (delete_otp-Intact begin email w i, get_otp_hash-delete_otp email w),
                            )))
                          (modify-Hoare Any _ (λ w t p. (tt, revoked r w is p.0 p.1)))))))
          (λ w t p. fact found r w p.0.0 p.0.1 p.1)

  reset_password-IsReset :
      (after : World)
      → reset_password env email otp password begin ≡ (ok tt, after)
      → IsReset begin email row.id after
  reset_password-IsReset after run =
      let post = reset_password-Hoare.apply begin tt refl in
      (subst (Post Any (λ _. IsReset begin email row.id)) run post).1

  -- After a code has reset a password the code is gone, and the guard signs no request in as the
  -- account's user, whatever token and cookie it carries, where the sessions were indexed by user
  -- before.
  pub resolve-reset_password :
      (after : World) (c : Credentials) (session who : ℕ) (end : World)
      → IsIndexed begin.now begin.sessions
      → reset_password env email otp password begin ≡ (ok tt, after)
      → resolve env c after ≡ (ok (session, who), end)
      → (who ≢ row.id) × (get_otp_hash email after ≡ none)
  resolve-reset_password after c session who end indexed run signed =
      let reset = reset_password-IsReset after run in
      (
        resolve-delete_all env begin after row.id c session who end indexed reset.same reset.gone
            signed,
        reset.spent,
      )
