-- ===== src/World/Ttl.antt =====
-- Redis keys with a time to live: SET with EX, GET, DEL and EXPIRE, on the list of the keys of one kind.
use chatwave_backend.Base.{
  ℕ, ◌≡◌, Option, none, some, List, [], ◌∷◌, ltb, ◌==◌, arith, if◌then◌else◌,
}

pub record Entry (V : Type 0) : Type 0 where
  pub key : ℕ
  pub value : V
  pub expires_at : ℕ

module _ {V : Type 0} where
  -- The key's entry, gone or not.
  abbrev pub lookup : ℕ → List (Entry V) → Option (Entry V)
  lookup k [] = none
  lookup k (e ∷ es) = if e.key == k then some e else lookup k es

  abbrev pub if_fresh : ℕ → Option (Entry V) → Option V
  if_fresh now none = none
  if_fresh now (some e) = if ltb now e.expires_at then some e.value else none

  -- GET
  abbrev pub get : ℕ → ℕ → List (Entry V) → Option V
  get now k es = if_fresh now (lookup k es)

  -- DEL
  abbrev pub del : ℕ → List (Entry V) → List (Entry V)
  del k [] = []
  del k (e ∷ es) = if e.key == k then del k es else e ∷ del k es

  -- SET with EX
  abbrev pub put : ℕ → V → ℕ → List (Entry V) → List (Entry V)
  put k v expires es = record { key = k; value = v; expires_at = expires } ∷ del k es

  abbrev put_if : Option V → ℕ → ℕ → List (Entry V) → List (Entry V)
  put_if none k expires es = es
  put_if (some v) k expires es = put k v expires es

  -- EXPIRE, which does nothing to a missing key
  abbrev pub expire : ℕ → ℕ → ℕ → List (Entry V) → List (Entry V)
  expire now k expires es = put_if (get now k es) k expires es

  pub lookup-del :
      (j k : ℕ) (es : List (Entry V)) → lookup j (del k es) ≡ (if k == j then none else lookup j es)
  lookup-del j k [] = ground arith
  lookup-del j k (e ∷ es) = ground (arith, lookup-del j k es)

  pub lookup-put :
      (j k : ℕ) (v : V) (expires : ℕ) (es : List (Entry V))
      → lookup j (put k v expires es) ≡ (
          if k == j
          then some (record { key = k; value = v; expires_at = expires })
          else lookup j es)
  lookup-put j k v expires es = ground (arith, lookup-del j k es)

  -- DEL of several keys
  abbrev pub del_all : List ℕ → List (Entry V) → List (Entry V)
  del_all [] es = es
  del_all (k ∷ ks) es = del_all ks (del k es)
