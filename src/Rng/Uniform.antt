-- ===== src/Rng/Uniform.antt =====
-- Rejection sampling in app/rng.py: the limit below which a raw value is accepted, and the
-- provider's loop over counters.
pub mod Counting
pub mod Provider
use python_rng_game_platform.Base.{
  ℕ, zero, suc, ◌+◌, ◌-◌, ◌*◌, ◌%◌, ◌^◌, Bool, List, [], ◌∷◌, ◌++◌, Option, none, some, ltb, leb,
  if◌then◌else◌, Bytes, Text, codes, length, Result, ok, err, raise_if, not, ◌>>=◌, ◌>>◌,
}
use python_rng_game_platform.Rng.Crypto.{Crypto}
use python_rng_game_platform.Rng.Encoding.{to_bytes, int_from_bytes, hex, uuid_str}

-- (1 << 256) - ((1 << 256) % bound), for any range in place of 1 << 256.
unfoldable pub rejection_limit : ℕ → ℕ → ℕ
rejection_limit range bound = range - range % bound

pub record DerivedValue : Type 0 where
  pub value : ℕ
  pub digest_hex : Text

-- `value_error` is the `ValueError` of an argument, `overflow` the `OverflowError` of `to_bytes`.
pub data ProviderError : Type 0 where
  value_error overflow : ProviderError

-- `HmacOutcomeProvider(secret)`; the result is the key.
pub new_provider : Text → Result ProviderError Bytes
new_provider secret = do raise_if (ltb (length secret) 32) value_error; ok secret

unfoldable pub uniform_base : ℕ → Text → ℕ → Text → Bytes
uniform_base session_id game_key config_version_id purpose =
    uuid_str session_id ++ b':' ∷ game_key ++ b':' ∷ uuid_str config_version_id ++ b':' ∷ purpose

unfoldable pub digest_at : Crypto → Bytes → Bytes → ℕ → Bytes
digest_at c key base counter = c.hmac_sha256 key (base ++ to_bytes 4 counter)

module _ (c : Crypto) (key base : Bytes) (limit bound : ℕ) where
  -- The loop from `counter`; `ok none` means that the fuel ran out first.
  unfoldable pub uniform_loop : ℕ → ℕ → Result ProviderError (Option DerivedValue)
  uniform_loop zero counter = ok none
  uniform_loop (suc fuel) counter =
      let digest = digest_at c key base counter in
      let raw = int_from_bytes digest in
      let next = uniform_loop fuel (counter + 1) in
      let accepted = some (record { value = raw % bound; digest_hex = hex digest }) in
      if leb (2 ^ 32) counter then err overflow else if ltb raw limit then ok accepted else next

module _ (c : Crypto) where
  unfoldable pub uniform :
      ℕ → Bytes → ℕ → Text → ℕ → Text → ℕ → Result ProviderError (Option DerivedValue)
  unfolding uniform_loop uniform_base
  uniform fuel key session_id game_key config_version_id purpose upper_bound =
      if leb upper_bound 0
      then err value_error
      else uniform_loop c key (uniform_base session_id game_key config_version_id purpose)
          (rejection_limit (2 ^ 256) upper_bound) upper_bound fuel 0
