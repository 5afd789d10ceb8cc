-- ===== src/Rng/Types.antt =====
-- The constants, errors and records of protocol v1 in app/rng.py, and its validation functions.
-- Python's type tests (`isinstance`) hold by typing; numbers are natural numbers, as the tables
-- and the configuration schema have them.
use python_rng_game_platform.Base.{
  ℕ, ◌+◌, ◌-◌, ◌^◌, Bool, true, false, not, ◌&&◌, ◌||◌, List, [], ◌∷◌, ltb, leb, ◌==◌, ◌==ˢ◌,
  if◌then◌else◌, Bytes, Text, codes, length, any, Result, ok, err, raise_if, ◌>>◌,
}
use python_rng_game_platform.Rng.Encoding.{is_hex_digit}

unfoldable pub protocol_version_v1 : Text
protocol_version_v1 = codes "rng-game-platform-pvf-v1"

unfoldable pub algorithm_hmac_sha256 : Text
algorithm_hmac_sha256 = codes "hmac-sha256"

unfoldable pub daily_spin_game_key : Text
daily_spin_game_key = codes "daily_spin"

unfoldable pub daily_spin_mapping_version_v1 : Text
daily_spin_mapping_version_v1 = codes "daily-spin-weighted-reward-v1"

abbrev pub server_seed_bytes : ℕ
server_seed_bytes = 32

abbrev pub max_nonce : ℕ
max_nonce = 2 ^ 64 - 1

abbrev pub max_reward_weight : ℕ
max_reward_weight = 2 ^ 63 - 1

abbrev pub max_reward_value : ℕ
max_reward_value = 2 ^ 31 - 1

-- `FairnessError` and its subclasses; `assertion` is the `AssertionError` of the selection, and `type_error`
-- the `TypeError` of `hmac.compare_digest`.
pub data FairnessError : Type 0 where
  invalid_fairness_input : FairnessError
  unsupported_fairness_version : FairnessError
  invalid_fairness_seed : FairnessError
  invalid_fairness_nonce : FairnessError
  invalid_reward_mapping : FairnessError
  assertion : FairnessError
  type_error : FairnessError

pub record RewardBand : Type 0 where
  pub key : Text
  pub weight : ℕ
  pub value : ℕ

-- The evidence of one accepted draw.
pub record DailySpinDerivation : Type 0 where
  pub mapping_digest : Text
  pub raw_digest_hex : Text
  pub raw_value : ℕ
  pub normalized_value : ℕ
  pub attempt : ℕ
  pub reward : RewardBand

pub record DailySpinProof : Type 0 where
  pub protocol_version : Text
  pub algorithm : Text
  pub server_seed_commitment : Text
  pub server_seed_hex : Text
  pub client_seed : Text
  pub nonce : ℕ
  pub game_key : Text
  pub config_version_id : ℕ
  pub session_id : ℕ
  pub reward_bands : List RewardBand
  pub mapping_version : Text
  pub mapping_digest : Text
  pub raw_digest_hex : Text
  pub normalized_value : ℕ
  pub attempt : ℕ
  pub reward_key : Text
  pub reward_value : ℕ

-- The sum of the weights of some bands.
abbrev pub total_weight : List RewardBand → ℕ
total_weight [] = 0
total_weight (b ∷ bs) = b.weight + total_weight bs

unfoldable pub validate_server_seed : Bytes → Result FairnessError (Unit {0})
validate_server_seed seed = raise_if (not (length seed == server_seed_bytes)) invalid_fairness_seed

unfoldable pub is_printable : ℕ → Bool
is_printable b = leb 0x21 b && leb b 0x7E

unfoldable pub validate_client_seed : Text → Result FairnessError Bytes
unfolding is_printable
validate_client_seed seed =
    if not (leb 1 (length seed) && leb (length seed) 64) || any (λ b. not (is_printable b)) seed
    then err invalid_fairness_seed
    else ok seed

unfoldable pub validate_nonce : ℕ → Result FairnessError (Unit {0})
validate_nonce nonce = raise_if (not (leb nonce max_nonce)) invalid_fairness_nonce

unfoldable pub validate_digest : Text → Result FairnessError (Unit {0})
validate_digest value =
    raise_if (not (length value == 64) || any (λ c. not (is_hex_digit c)) value)
      invalid_fairness_input

unfoldable pub validate_supported_v1 : Text → Text → Text → Text → Result FairnessError (Unit {0})
validate_supported_v1 game_key protocol_version algorithm mapping_version =
    raise_if
      (not (game_key ==ˢ daily_spin_game_key)
        || not (protocol_version ==ˢ protocol_version_v1)
        || not (algorithm ==ˢ algorithm_hmac_sha256)
        || not (mapping_version ==ˢ daily_spin_mapping_version_v1))
      unsupported_fairness_version

unfoldable pub is_nil : Text → Bool
is_nil [] = true
is_nil (_ ∷ _) = false

-- The tests on one band, in the loop's order: `keys` and `total` are those of the bands before it.
unfoldable pub validate_band : RewardBand → List Text → ℕ → Result FairnessError (Unit {0})
unfolding is_nil
validate_band band keys total = do
  raise_if (is_nil band.key) invalid_reward_mapping
  raise_if (any (λ k. band.key ==ˢ k) keys) invalid_reward_mapping
  raise_if (not (ltb 0 band.weight && leb band.weight max_reward_weight)) invalid_reward_mapping
  raise_if (not (leb band.value max_reward_value)) invalid_reward_mapping
  raise_if (ltb max_reward_weight (total + band.weight)) invalid_reward_mapping

unfoldable pub validate_bands : List RewardBand → List Text → ℕ → Result FairnessError (Unit {0})
validate_bands [] keys total = ok tt
validate_bands (band ∷ bands) keys total = do
  validate_band band keys total
  validate_bands bands (band.key ∷ keys) (total + band.weight)

unfoldable pub validate_reward_bands : List RewardBand → Result FairnessError (Unit {0})
unfolding validate_bands
validate_reward_bands [] = err invalid_reward_mapping
validate_reward_bands (band ∷ bands) = validate_bands (band ∷ bands) [] 0
