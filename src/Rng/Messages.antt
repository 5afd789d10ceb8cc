-- ===== src/Rng/Messages.antt =====
-- The byte formats that protocol v1 of app/rng.py hashes: the reward map and the HMAC message.
pub mod Fields
pub mod Mapping
pub mod Derivation
use python_rng_game_platform.Base.{
  ℕ, zero, suc, ◌+◌, List, [], ◌∷◌, ◌++◌, Bytes, Text, codes, length, Result, ok, err, ◌>>=◌, ◌>>◌,
}
use python_rng_game_platform.Rng.Crypto.{Crypto}
use python_rng_game_platform.Rng.Encoding.{decimal, hex, uuid_str}
use python_rng_game_platform.Rng.Types.{
  FairnessError, RewardBand, validate_reward_bands, validate_supported_v1, validate_client_seed,
  validate_nonce, validate_digest, protocol_version_v1, algorithm_hmac_sha256,
  daily_spin_mapping_version_v1,
}

abbrev pub newline : ℕ
newline = 10

-- A label, a value and a line end, in front of the rest of the message.
unfoldable pub field : Text → Text → Bytes → Bytes
field label value rest = label ++ (value ++ newline ∷ rest)

-- A value behind its length: `label=<bytes>:<value>\n`.
unfoldable pub sized_field : Text → Text → Bytes → Bytes
sized_field label value rest = label ++ (decimal (length value) ++ b':' ∷ (value ++ newline ∷ rest))

-- The three lines of the band at `index`.
unfoldable pub band_lines : ℕ → RewardBand → Bytes → Bytes
unfolding field sized_field
band_lines index band rest =
    codes "reward["
    ++ (decimal index
        ++ sized_field (codes "].key=") band.key (
            codes "reward["
            ++ (decimal index
                ++ field (codes "].weight=") (decimal band.weight) (
                    codes "reward["
                    ++ (decimal index ++ field (codes "].value=") (decimal band.value) rest)))))

unfoldable pub all_band_lines : ℕ → List RewardBand → Bytes
unfolding band_lines
all_band_lines index [] = []
all_band_lines index (band ∷ bands) = band_lines index band (all_band_lines (index + 1) bands)

unfoldable pub daily_spin_mapping_bytes : List RewardBand → Result FairnessError Bytes
unfolding all_band_lines
daily_spin_mapping_bytes bands = do
  validate_reward_bands bands
  ok (
      codes "RNG-GAME-PLATFORM-DAILY-SPIN-MAP/1\n"
      ++ field (codes "reward_count=") (decimal (length bands)) (all_band_lines 0 bands))

unfoldable pub daily_spin_mapping_digest : Crypto → List RewardBand → Result FairnessError Text
daily_spin_mapping_digest c bands = do
  bytes ← daily_spin_mapping_bytes bands
  ok (hex (c.sha256 bytes))

-- The arguments of `daily_spin_derivation_message` but the attempt.
pub record MessageInput : Type 0 where
  pub client_seed : Text
  pub nonce : ℕ
  pub config_version_id : ℕ
  pub session_id : ℕ
  pub mapping_digest : Text
  pub game_key : Text

unfoldable pub message_bytes : MessageInput → ℕ → Bytes
unfolding field sized_field
message_bytes m attempt =
    codes "RNG-GAME-PLATFORM-PVF/1\nalgorithm=hmac-sha256\nprotocol=rng-game-platform-pvf-v1\n"
    ++ sized_field (codes "game_key=") m.game_key (
        field (codes "config_version_id=") (uuid_str m.config_version_id) (
          field (codes "session_id=") (uuid_str m.session_id) (
            sized_field (codes "client_seed=") m.client_seed (
              field (codes "nonce=") (decimal m.nonce) (
                codes "purpose=daily_spin\nmapping_version=daily-spin-weighted-reward-v1\n"
                ++ field (codes "mapping_digest=") m.mapping_digest
                    (field (codes "attempt=") (decimal attempt) []))))))

-- The guards in front of the message.
unfoldable pub validate_message : MessageInput → Result FairnessError (Unit {0})
validate_message m = do
  validate_supported_v1 m.game_key protocol_version_v1 algorithm_hmac_sha256
      daily_spin_mapping_version_v1
  validate_client_seed m.client_seed
  validate_nonce m.nonce
  validate_digest m.mapping_digest

unfoldable pub daily_spin_derivation_message : MessageInput → ℕ → Result FairnessError Bytes
unfolding message_bytes
daily_spin_derivation_message m attempt = do validate_message m; ok (message_bytes m attempt)
