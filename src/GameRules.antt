-- ===== src/GameRules.antt =====
-- app/game_rules.py: the deterministic rules of the three games and their registry.
pub mod Scoring
pub mod Rewards
pub mod SpinRewards
pub mod Registry
mod Tests
use python_rng_game_platform.Base.{
  ℕ, suc, ◌+◌, ◌-◌, ◌*◌, ◌/◌, Bool, true, false, not, ◌&&◌, ◌||◌, List, [], ◌∷◌, Option, none, some,
  leb, ltb, ◌==◌, ◌==ˢ◌, if◌then◌else◌, Text, codes, length, any, get_elem?, map, Result, ok, err,
  raise_if, ◌>>=◌, ◌>>◌,
}
use python_rng_game_platform.Rng.Types.{RewardBand}
use python_rng_game_platform.Rng.Uniform.{DerivedValue}
use python_rng_game_platform.Models.Json.{
  Json, null, boolean, number, negative, text, instant, array, object, Fields, end, field, get,
}
use python_rng_game_platform.Models.Errors.{
  Error, invalid_rules_input, index_error, zero_division_error,
}
use python_rng_game_platform.Models.Schemas.{
  ConfigBand, DailySpinConfig, PredictionCardConfig, SkillCheckConfig, GameConfigPayload,
  daily_spin_config, prediction_card_config, skill_check_config, validate_payload,
}
use python_rng_game_platform.Models.Rows.{GameConfigVersion, GameSession, Outcome}

pub data GameKey : Type 0 where
  daily_spin prediction_card skill_check : GameKey

-- The value of the enumeration.
unfoldable pub key_text : GameKey → Text
key_text daily_spin = codes "daily_spin"
key_text prediction_card = codes "prediction_card"
key_text skill_check = codes "skill_check"

pub record PlayIntent : Type 0 where
  pub choice : Option Text
  pub actions : Option (List ℕ)

-- `provider.uniform(session_id, game_key, config_version_id, purpose, upper_bound)`
abbrev pub OutcomeProvider : Type 0
OutcomeProvider = ℕ → Text → ℕ → Text → ℕ → Result Error DerivedValue

-- `_validated_config`
unfoldable pub validated_config : GameConfigVersion → Result Error GameConfigPayload
validated_config config = validate_payload config.payload

abbrev pub as_daily_spin : GameConfigPayload → Result Error DailySpinConfig
as_daily_spin (daily_spin_config c) = ok c
as_daily_spin _ = err invalid_rules_input

abbrev pub as_prediction_card : GameConfigPayload → Result Error PredictionCardConfig
as_prediction_card (prediction_card_config c) = ok c
as_prediction_card _ = err invalid_rules_input

abbrev pub as_skill_check : GameConfigPayload → Result Error SkillCheckConfig
as_skill_check (skill_check_config c) = ok c
as_skill_check _ = err invalid_rules_input

-- band.key == reward_key, for a value that was stored.
abbrev pub is_text : Text → Json → Bool
is_text t (text s) = t ==ˢ s
is_text t _ = false

pub find_band_value : List ConfigBand → Json → Result Error ℕ
find_band_value [] reward_key = err invalid_rules_input
find_band_value (band ∷ bands) reward_key =
    let rest = find_band_value bands reward_key in
    if is_text band.key reward_key then ok band.value else rest

-- `DailySpinRules.reward_value` and `leaderboard_score`
pub daily_spin_value : GameConfigVersion → Outcome → Result Error ℕ
unfolding find_band_value validated_config
daily_spin_value config outcome = do
  payload ← validated_config config
  spin ← as_daily_spin payload
  find_band_value spin.rewards (get (codes "reward_key") outcome.result)

abbrev pub to_reward_band : ConfigBand → RewardBand
to_reward_band b = record { key = b.key; weight = b.weight; value = b.value }

-- `DailySpinRules.fairness_reward_bands`
unfoldable pub fairness_reward_bands : GameConfigVersion → Result Error (List RewardBand)
unfolding validated_config
fairness_reward_bands config = do
  payload ← validated_config config
  spin ← as_daily_spin payload
  ok (map to_reward_band spin.rewards)

-- `intent.choice`, if it is among the choices and there are no actions.
abbrev pub chosen : List Text → PlayIntent → Result Error Text
chosen choices intent = elim intent.choice [
  | none ↦ err invalid_rules_input
  | some choice ↦ elim intent.actions [
    | none ↦ if any (λ c. c ==ˢ choice) choices then ok choice else err invalid_rules_input
    | some _ ↦ err invalid_rules_input
  ]
]

abbrev pub or_raise : {A : Type 0} → Option A → Error → Result Error A
or_raise none e = err e
or_raise (some a) e = ok a

abbrev pub prediction_result : Text → Text → DerivedValue → Fields
prediction_result choice authoritative derived = field (codes "player_choice") (text choice) (
    field (codes "authoritative_choice") (text authoritative) (
      field (codes "correct") (boolean (choice ==ˢ authoritative)) (
        field (codes "normalized_value") (number derived.value)
          (field (codes "derivation_digest") (text derived.digest_hex) end))))

pub record CardPlay : Type 0 where
  pub card : PredictionCardConfig
  pub choice : Text

-- The guards of `PredictionCardRules.evaluate`.
pub card_play : GameConfigVersion → PlayIntent → Result Error CardPlay
unfolding validated_config
card_play config intent = do
  payload ← validated_config config
  card ← as_prediction_card payload
  choice ← chosen card.choices intent
  ok (record { card = card; choice = choice })

-- The draw of the authoritative choice, and its comparison.
pub draw_card : OutcomeProvider → ℕ → ℕ → CardPlay → Result Error Fields
draw_card provider session_id config_id play = do
  derived ←
      provider session_id (key_text prediction_card) config_id (key_text prediction_card)
        (length play.card.choices)
  authoritative ← or_raise (get_elem? play.card.choices derived.value) index_error
  ok (prediction_result play.choice authoritative derived)

-- `PredictionCardRules.evaluate`
pub evaluate_prediction :
    OutcomeProvider → GameSession → GameConfigVersion → PlayIntent → Result Error Fields
unfolding card_play draw_card
evaluate_prediction provider game_session config intent = do
  play ← card_play config intent
  draw_card provider game_session.id config.id play

-- `PredictionCardRules.retry_matches`
pub prediction_retry_matches : Outcome → PlayIntent → Bool
prediction_retry_matches outcome intent = elim intent.actions [
  | some _ ↦ false
  | none ↦ elim intent.choice [
    | some choice ↦ is_text choice (get (codes "player_choice") outcome.result)
    | none ↦ elim (get (codes "player_choice") outcome.result) [ null ↦ true | _ ↦ false ]
  ]
]

-- `PredictionCardRules.reward_value` and `leaderboard_score`
pub prediction_value : GameConfigVersion → Outcome → Result Error ℕ
unfolding validated_config
prediction_value config outcome = do
  payload ← validated_config config
  card ← as_prediction_card payload
  ok (elim (get (codes "correct") outcome.result) [
    | boolean b ↦ if b then card.correct_reward else 0
    | _ ↦ 0
  ])

-- `len(actions) != len(set(actions))`
unfoldable pub has_duplicates : List ℕ → Bool
has_duplicates [] = false
has_duplicates (a ∷ actions) = any (λ b. a == b) actions || has_duplicates actions

-- The loop over `zip(actions, challenge)` up to the first difference.
unfoldable pub correct_prefix : List ℕ → List ℕ → ℕ
correct_prefix [] challenge = 0
correct_prefix (a ∷ actions) [] = 0
correct_prefix (a ∷ actions) (e ∷ challenge) =
    let rest = suc (correct_prefix actions challenge) in if a == e then rest else 0

abbrev pub as_array : Json → Result Error (List ℕ)
as_array (array xs) = ok xs
as_array _ = err invalid_rules_input

-- `//`, which raises on a zero divisor.
abbrev pub floor_div : ℕ → ℕ → Result Error ℕ
floor_div a b = if b == 0 then err zero_division_error else ok (a / b)

abbrev pub skill_result : ℕ → ℕ → ℕ → ℕ → Fields
skill_result score correct submitted elapsed = field (codes "score") (number score) (
    field (codes "correct_actions") (number correct) (
      field (codes "submitted_actions") (number submitted)
        (field (codes "elapsed_ms") (number elapsed) end)))

pub record SkillPlay : Type 0 where
  pub skill : SkillCheckConfig
  pub actions : List ℕ
  pub challenge : List ℕ

-- The guards of `SkillCheckRules.evaluate`.
unfoldable pub skill_play : GameSession → GameConfigVersion → PlayIntent → Result Error SkillPlay
unfolding has_duplicates validated_config
skill_play game_session config intent = do
  payload ← validated_config config
  skill ← as_skill_check payload
  actions ← or_raise intent.actions invalid_rules_input
  raise_if (elim intent.choice [ none ↦ false | some _ ↦ true ]) invalid_rules_input
  challenge ← as_array (get (codes "sequence") game_session.challenge)
  raise_if (has_duplicates actions) invalid_rules_input
  ok (record { skill = skill; actions = actions; challenge = challenge })

-- `SkillCheckRules.evaluate` of the elapsed milliseconds.
unfoldable pub score_play : ℕ → SkillPlay → Result Error Fields
unfolding correct_prefix
score_play elapsed play = do
  score ←
      floor_div (play.skill.max_score * correct_prefix play.actions play.challenge)
        (length play.challenge)
  ok (skill_result score (correct_prefix play.actions play.challenge) (length play.actions) elapsed)

-- `SkillCheckRules.evaluate`; `milliseconds` is the floating-point rendering of a time span.
unfoldable pub evaluate_skill :
    (ℕ → ℕ) → ℕ → GameSession → GameConfigVersion → PlayIntent → Result Error Fields
unfolding skill_play score_play
evaluate_skill milliseconds now game_session config intent = do
  play ← skill_play game_session config intent
  score_play (milliseconds (now - game_session.created_at)) play

-- `SkillCheckRules.leaderboard_score` and `reward_value`
unfoldable pub skill_value : GameConfigVersion → Outcome → Result Error ℕ
unfolding validated_config
skill_value config outcome = do
  payload ← validated_config config
  skill ← as_skill_check payload
  elim (get (codes "score") outcome.result) [
    | number score ↦ if leb score skill.max_score then ok score else err invalid_rules_input
    | _ ↦ err invalid_rules_input
  ]
