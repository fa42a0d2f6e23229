-- ===== src/Env.antt =====
-- What the services take from libraries and from the configuration. `is_valid_object_id` is
-- mongoose's `isValidObjectId`, `object_id_string` is `String(new Types.ObjectId(id))`; `clock` is
-- the `Intl` time of day in calls.constants.ts, `upper` and `lower` are `toUpperCase` and
-- `toLowerCase`. A random value is a function of a number that no one draws twice: `random_below` is
-- `randomInt(0, bound)`, `random_hex` the hexadecimal string of `randomBytes(n)`; `time_suffix` is
-- `Date.now().toString(36).slice(-8)`. `bcrypt_hash` takes the password and the draw of its salt, and
-- `id_text` is the string of an ObjectId, and `jwt_verify` gives the `sub` and the `sid` of a token with a good signature, which has both.
use chatwave_backend.Base.{ℕ, Bool, Option, ◌==◌, ◌&&◌}
use chatwave_backend.Base.Text.{Text}

pub record Env : Type 0 where
  pub is_valid_object_id : ℕ → Bool
  pub object_id_string : ℕ → ℕ
  pub ring_timeout_ms : ℕ
  pub clock : ℕ → Text
  pub upper : Text → Text
  pub lower : Text → Text
  pub random_below : ℕ → ℕ → ℕ
  pub random_hex : ℕ → ℕ → Text
  pub time_suffix : ℕ → Text
  pub bcrypt_hash : Text → ℕ → Text
  pub bcrypt_compare : Text → Text → Bool
  pub id_text : ℕ → Text
  pub jwt_verify : ℕ → Option (ℕ × ℕ)

-- `isMongoId`, the same function in five files
abbrev pub is_mongo_id : Env → ℕ → Bool
is_mongo_id env id = env.is_valid_object_id id && env.object_id_string id == id
