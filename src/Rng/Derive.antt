-- ===== src/Rng/Derive.antt =====
-- `derive_daily_spin` of app/rng.py: one draw of the daily spin from explicit inputs.
pub mod Draws
pub mod Inputs
pub mod FirstHit
use python_rng_game_platform.Base.{
  ℕ, zero, suc, ◌+◌, ◌%◌, ◌^◌, Option, none, some, List, ltb, if◌then◌else◌, Bytes, Text, Result,
  ok, err, ◌>>=◌, ◌>>◌,
}
use python_rng_game_platform.Rng.Crypto.{Crypto}
use python_rng_game_platform.Rng.Encoding.{hex, int_from_bytes}
use python_rng_game_platform.Rng.Types.{
  FairnessError, RewardBand, DailySpinDerivation, total_weight, validate_server_seed,
  validate_supported_v1, validate_nonce, validate_reward_bands,
}
use python_rng_game_platform.Rng.Uniform.{rejection_limit}
use python_rng_game_platform.Rng.Select.{select_daily_spin_reward}
use python_rng_game_platform.Rng.Messages.{
  MessageInput, daily_spin_derivation_message, daily_spin_mapping_digest,
}

-- The keyword arguments of `derive_daily_spin`.
pub record DrawInput : Type 0 where
  pub server_seed : Bytes
  pub client_seed : Text
  pub nonce : ℕ
  pub config_version_id : ℕ
  pub session_id : ℕ
  pub reward_bands : List RewardBand
  pub game_key : Text
  pub protocol_version : Text
  pub algorithm : Text
  pub mapping_version : Text

abbrev pub message_input : DrawInput → Text → MessageInput
message_input i digest = record {
  client_seed = i.client_seed;
  nonce = i.nonce;
  config_version_id = i.config_version_id;
  session_id = i.session_id;
  mapping_digest = digest;
  game_key = i.game_key;
}

-- The evidence of a draw whose HMAC digest is `digest`.
abbrev pub derivation : List RewardBand → Text → ℕ → Bytes → RewardBand → DailySpinDerivation
derivation bands mapping_digest attempt digest reward = record {
  mapping_digest = mapping_digest;
  raw_digest_hex = hex digest;
  raw_value = int_from_bytes digest;
  normalized_value = int_from_bytes digest % total_weight bands;
  attempt = attempt;
  reward = reward;
}

-- What an accepted digest leads to.
unfoldable pub accept :
    List RewardBand → Text → ℕ → Bytes → Result FairnessError (Option DailySpinDerivation)
accept bands mapping_digest attempt digest = do
  reward ← select_daily_spin_reward bands (int_from_bytes digest % total_weight bands)
  ok (some (derivation bands mapping_digest attempt digest reward))

module _ (c : Crypto) (seed : Bytes) (m : MessageInput) (bands : List RewardBand) (limit : ℕ) where
  -- The loop from `attempt`; `ok none` means that the fuel ran out first.
  unfoldable pub derive_loop : ℕ → ℕ → Result FairnessError (Option DailySpinDerivation)
  derive_loop zero attempt = ok none
  derive_loop (suc fuel) attempt =
      let next = derive_loop fuel (attempt + 1) in
      do
        message ← daily_spin_derivation_message m attempt
        let digest = c.hmac_sha256 seed message
        if ltb (int_from_bytes digest) limit
            then accept bands m.mapping_digest attempt digest
            else next

-- The guards in front of the loop.
unfoldable pub validate_draw : DrawInput → Result FairnessError (Unit {0})
validate_draw i = do
  validate_server_seed i.server_seed
  validate_supported_v1 i.game_key i.protocol_version i.algorithm i.mapping_version
  validate_nonce i.nonce
  validate_reward_bands i.reward_bands

abbrev pub draw_limit : List RewardBand → ℕ
draw_limit bands = rejection_limit (2 ^ 256) (total_weight bands)

unfoldable pub derive_daily_spin :
    Crypto → ℕ → DrawInput → Result FairnessError (Option DailySpinDerivation)
unfolding derive_loop validate_draw
derive_daily_spin c fuel i = do
  validate_draw i
  mapping_digest ← daily_spin_mapping_digest c i.reward_bands
  derive_loop c i.server_seed (message_input i mapping_digest) i.reward_bands
      (draw_limit i.reward_bands) fuel 0
