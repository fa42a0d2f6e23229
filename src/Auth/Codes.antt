-- ===== src/Auth/Codes.antt =====
-- One-time codes and tokens in Redis: the password codes, the intents to link a provider and the
-- tokens to delete an account (src/common/redis/redis.service.ts).
use chatwave_backend.Base.{
  ℕ, ◌+◌, ◌*◌, Bool, ◌&&◌, not, Option, none, some, ◌∷◌, ltb, if◌then◌else◌, filter, find,
}
use chatwave_backend.Base.Text.{Text, text_eq}
use chatwave_backend.Schema.Session.{OAuthProvider}
use chatwave_backend.World.State.{
  World, OtpKey, OtpCount, Action, gets, modify, pure, on_some, ◌>>=◌, ◌>>◌,
}
use chatwave_backend.World.Ttl.{get, put, del}

abbrev pub otp_max : ℕ
otp_max = 5

abbrev pub otp_ttl : ℕ
otp_ttl = 600000

abbrev pub otp_window : ℕ
otp_window = 900000

abbrev is_otp_of : Text → OtpKey → Bool
is_otp_of email k = text_eq k.email email

unfoldable pub set_otp_hash : Text → Text → World → World
set_otp_hash email hash w = record w {
  otps =
      record { email = email; hash = hash; expires_at = w.now + otp_ttl }
      ∷ filter (λ k. not (is_otp_of email k)) w.otps;
}

abbrev if_live_hash : ℕ → Option OtpKey → Option Text
if_live_hash now none = none
if_live_hash now (some k) = if ltb now k.expires_at then some k.hash else none

unfoldable pub get_otp_hash : Text → World → Option Text
get_otp_hash email w = if_live_hash w.now (find (is_otp_of email) w.otps)

unfoldable pub delete_otp : Text → World → World
delete_otp email w = record w { otps = filter (λ k. not (is_otp_of email k)) w.otps }

abbrev is_count_of : ℕ → Text → OtpCount → Bool
is_count_of now email k = text_eq k.email email && ltb now k.expires_at

-- INCR, with EXPIRE on the first count
abbrev pub next_count : ℕ → Text → Option OtpCount → OtpCount
next_count now email none = record { email = email; count = 1; expires_at = now + otp_window }
next_count now email (some k) = record k { count = k.count + 1 }

unfoldable pub otp_count_of : Text → World → Option OtpCount
otp_count_of email w = find (is_count_of w.now email) w.otp_counts

unfoldable pub bump_otp_count : Text → World → World
unfolding otp_count_of
bump_otp_count email w = record w {
  otp_counts =
      next_count w.now email (otp_count_of email w)
      ∷ filter (λ k. not (text_eq k.email email)) w.otp_counts;
}

unfoldable pub increment_otp_count : Text → Action ℕ
unfolding otp_count_of
increment_otp_count email = do
  count ← gets (λ w. (next_count w.now email (otp_count_of email w)).count)
  modify (bump_otp_count email)
  pure count

unfoldable pub set_oauth_link : ℕ → OAuthProvider → Action (Unit {0})
set_oauth_link user provider =
    modify (λ w. record w { oauth_links = put user provider (w.now + 600000) w.oauth_links })

unfoldable pub consume_oauth_link : ℕ → Action (Option OAuthProvider)
consume_oauth_link user = do
  found ← gets (λ w. get w.now user w.oauth_links)
  on_some found none λ provider. do
    modify (λ w. record w { oauth_links = del user w.oauth_links })
    pure (some provider)

-- The ttl is in seconds.
unfoldable pub set_delete_token : ℕ → ℕ → ℕ → Action (Unit {0})
set_delete_token token user ttl =
    modify (λ w. record w { delete_tokens = put token user (w.now + ttl * 1000) w.delete_tokens })

unfoldable pub consume_delete_token : ℕ → Action (Option ℕ)
consume_delete_token token = do
  found ← gets (λ w. get w.now token w.delete_tokens)
  on_some found none λ user. do
    modify (λ w. record w { delete_tokens = del token w.delete_tokens })
    pure (some user)
