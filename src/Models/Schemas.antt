-- ===== src/Models/Schemas.antt =====
-- The configuration payloads of app/schemas.py and their validation by the pydantic adapter.
use python_rng_game_platform.Base.{
  ℕ, suc, Bool, ◌&&◌, List, [], ◌∷◌, leb, ltb, if◌then◌else◌, Text, length, all, Result, ok, err,
}
use python_rng_game_platform.Models.Errors.{Error, validation_error}

-- `RewardBand` of the schema.
pub record ConfigBand : Type 0 where
  pub key : Text
  pub weight : ℕ
  pub value : ℕ

pub record DailySpinConfig : Type 0 where
  pub cooldown_seconds : ℕ
  pub rewards : List ConfigBand

pub record PredictionCardConfig : Type 0 where
  pub cooldown_seconds : ℕ
  pub choices : List Text
  pub correct_reward : ℕ

pub record SkillCheckConfig : Type 0 where
  pub cooldown_seconds : ℕ
  pub duration_seconds : ℕ
  pub max_score : ℕ

pub data GameConfigPayload : Type 0 where
  daily_spin_config : DailySpinConfig → GameConfigPayload
  prediction_card_config : PredictionCardConfig → GameConfigPayload
  skill_check_config : SkillCheckConfig → GameConfigPayload

-- A stored payload: one with the keys and types of a schema, or any other JSON object.
pub data StoredPayload : Type 0 where
  shaped : GameConfigPayload → StoredPayload
  malformed : StoredPayload

-- How many characters a text has: the bytes that continue none.
unfoldable pub char_count : Text → ℕ
char_count [] = 0
char_count (b ∷ bs) =
    let rest = char_count bs in if leb 0x80 b && ltb b 0xC0 then rest else suc rest

unfoldable pub between : ℕ → ℕ → ℕ → Bool
between lo hi n = leb lo n && leb n hi

unfoldable pub band_fits : ConfigBand → Bool
band_fits b = between 1 30 (char_count b.key) && ltb 0 b.weight

unfoldable pub payload_fits : GameConfigPayload → Bool
payload_fits (daily_spin_config c) =
    between 60 604800 c.cooldown_seconds && leb 2 (length c.rewards) && all band_fits c.rewards
payload_fits (prediction_card_config c) =
    leb c.cooldown_seconds 604800 && between 2 10 (length c.choices)
payload_fits (skill_check_config c) =
    leb c.cooldown_seconds 604800 && between 5 300 c.duration_seconds && ltb 0 c.max_score

-- `game_config_adapter.validate_python`
unfoldable pub validate_payload : StoredPayload → Result Error GameConfigPayload
unfolding char_count between band_fits payload_fits
validate_payload malformed = err validation_error
validate_payload (shaped p) = if payload_fits p then ok p else err validation_error

abbrev pub cooldown_of : GameConfigPayload → ℕ
cooldown_of (daily_spin_config c) = c.cooldown_seconds
cooldown_of (prediction_card_config c) = c.cooldown_seconds
cooldown_of (skill_check_config c) = c.cooldown_seconds

-- getattr(payload, "duration_seconds", 300)
abbrev pub duration_of : GameConfigPayload → ℕ
duration_of (daily_spin_config c) = 300
duration_of (prediction_card_config c) = 300
duration_of (skill_check_config c) = c.duration_seconds
