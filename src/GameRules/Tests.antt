-- ===== src/GameRules/Tests.antt =====
-- The theorems on app/game_rules.py at plays that meet their hypotheses.
use python_rng_game_platform.Base.{
  ℕ, ◌≡◌, ◌↔◌, refl, true, List, [], ◌∷◌, none, some, Text, codes, get_elem?, ◌==ˢ◌, if◌then◌else◌,
  ok, length, any,
}
use python_rng_game_platform.Rng.Types.{
  RewardBand, is_nil, validate_band, validate_bands, validate_reward_bands,
}
use python_rng_game_platform.Rng.Uniform.{DerivedValue}
use python_rng_game_platform.Rng.Select.{select_loop, select_daily_spin_reward}
use python_rng_game_platform.Models.Json.{text, array, Fields, end, field, get}
use python_rng_game_platform.Models.Schemas.{
  daily_spin_config, prediction_card_config, skill_check_config, StoredPayload, shaped,
  validate_payload, char_count, between, band_fits, payload_fits,
}
use python_rng_game_platform.Models.Rows.{
  ConfigStatus, SessionStatus, OutcomeStatus, GameConfigVersion, GameSession, Outcome,
}
use python_rng_game_platform.GameRules.{
  OutcomeProvider, PlayIntent, CardPlay, card_play, draw_card, SkillPlay, skill_play, score_play,
  correct_prefix, has_duplicates, evaluate_skill, evaluate_prediction, prediction_value,
  prediction_retry_matches, skill_value, daily_spin_value, fairness_reward_bands, validated_config,
  skill_result, prediction_result,
}
use python_rng_game_platform.GameRules.Scoring.{IsScore, evaluate_skill_sound}
use python_rng_game_platform.GameRules.Rewards.{evaluate_prediction_sound}
use python_rng_game_platform.GameRules.SpinRewards.{daily_spin_value-selected}

abbrev config_with : StoredPayload → GameConfigVersion
config_with payload = record {
  id = 3;
  game_id = 2;
  version = 1;
  status = ConfigStatus.published;
  payload = payload;
}

abbrev skill_config : GameConfigVersion
skill_config = config_with (
    shaped (
      skill_check_config (record { cooldown_seconds = 0; duration_seconds = 30; max_score = 100 })))

abbrev card_config : GameConfigVersion
card_config = config_with (
    shaped (
      prediction_card_config (record {
        cooldown_seconds = 0;
        choices = codes "red" ∷ codes "black" ∷ [];
        correct_reward = 25;
      })))

abbrev spin_config : GameConfigVersion
spin_config = config_with (
    shaped (
      daily_spin_config (record {
        cooldown_seconds = 60;
        rewards =
            record { key = codes "small"; weight = 3; value = 10 }
            ∷ record { key = codes "big"; weight = 1; value = 50 }
            ∷ [];
      })))

abbrev played_session : GameSession
played_session = record {
  id = 9;
  created_at = 1000;
  player_id = 1;
  game_id = 2;
  config_version_id = 3;
  request_id = 4;
  request_fingerprint = codes "f";
  status = SessionStatus.active;
  expires_at = 9000;
  ended_at = none;
  challenge = field (codes "sequence") (array (4 ∷ 2 ∷ 7 ∷ [])) end;
}

abbrev outcome_of : Fields → Outcome
outcome_of result = record {
  id = 5;
  session_id = 9;
  player_id = 1;
  game_id = 2;
  config_version_id = 3;
  status = OutcomeStatus.accepted;
  result = result;
}

abbrev actions_intent : PlayIntent
actions_intent = record { choice = none; actions = some (4 ∷ 2 ∷ 5 ∷ []) }

abbrev choice_intent : PlayIntent
choice_intent = record { choice = some (codes "red"); actions = none }

-- The second choice is always drawn.
abbrev second : DerivedValue
second = record { value = 1; digest_hex = codes "00" }

abbrev always_second : OutcomeProvider
always_second session_id game_key config_id purpose bound = ok second

skill_run :
    evaluate_skill (λ t. t) 3000 played_session skill_config actions_intent
    ≡ ok (skill_result 66 2 3 2000)
unfolding evaluate_skill skill_play score_play correct_prefix has_duplicates validated_config
    validate_payload between payload_fits get ◌==ˢ◌
skill_run = refl

card_run :
    evaluate_prediction always_second played_session card_config choice_intent
    ≡ ok (prediction_result (codes "red") (codes "black") second)
unfolding evaluate_prediction card_play draw_card validated_config validate_payload between
    payload_fits ◌==ˢ◌
card_run = refl

abbrev big_band : RewardBand
big_band = record { key = codes "big"; weight = 1; value = 50 }

abbrev spin_bands : List RewardBand
spin_bands =
    record { key = codes "small"; weight = 3; value = 10 }
    ∷ record { key = codes "big"; weight = 1; value = 50 }
    ∷ []

spin_offered : fairness_reward_bands spin_config ≡ ok spin_bands
unfolding fairness_reward_bands validated_config validate_payload between payload_fits band_fits
    char_count
spin_offered = refl

spin_drawn : select_daily_spin_reward spin_bands 3 ≡ ok big_band
unfolding select_daily_spin_reward select_loop validate_reward_bands validate_bands validate_band
    is_nil ◌==ˢ◌
spin_drawn = refl

abbrev spin_outcome : Outcome
spin_outcome = outcome_of (field (codes "reward_key") (text (codes "big")) end)

spin_recorded : get (codes "reward_key") spin_outcome.result ≡ text (codes "big")
unfolding get ◌==ˢ◌
spin_recorded = refl

daily_spin_value-selected_example : daily_spin_value spin_config spin_outcome ≡ ok 50
daily_spin_value-selected_example =
    daily_spin_value-selected spin_config spin_outcome 3 {bands = spin_bands} {reward = big_band}
      spin_offered spin_drawn spin_recorded

evaluate_skill_sound_example :
    (play : SkillPlay) × (score : ℕ) × (skill_play played_session skill_config actions_intent
      ≡ ok play)
    × IsScore play score
    × (skill_value skill_config (outcome_of (skill_result 66 2 3 2000)) ≡ ok score)
evaluate_skill_sound_example =
    evaluate_skill_sound (λ t. t) 3000 played_session skill_config actions_intent
      {r = skill_result 66 2 3 2000} (outcome_of (skill_result 66 2 3 2000)) skill_run refl

evaluate_prediction_sound_example :
    (play : CardPlay) × (card_play card_config choice_intent ≡ ok play)
    × (validated_config card_config ≡ ok (prediction_card_config play.card))
    × (choice_intent.choice ≡ some play.choice)
    × (choice_intent.actions ≡ none)
    × (any (λ c. c ==ˢ play.choice) play.card.choices ≡ true)
    × (derived : DerivedValue) × (always_second played_session.id
          (codes "prediction_card")
          card_config.id
          (codes "prediction_card")
          (length play.card.choices)
        ≡ ok derived)
    × (authoritative : Text) × (get_elem? play.card.choices derived.value ≡ some authoritative)
    × (get (codes "authoritative_choice") (prediction_result (codes "red") (codes "black") second)
        ≡ text authoritative)
    × (prediction_value card_config
          (outcome_of (prediction_result (codes "red") (codes "black") second))
        ≡ ok (if play.choice ==ˢ authoritative then play.card.correct_reward else 0))
    × ((later : PlayIntent)
        → (prediction_retry_matches
              (outcome_of (prediction_result (codes "red") (codes "black") second))
              later
            ≡ true)
          ↔ ((later.choice ≡ some play.choice) × (later.actions ≡ none)))
evaluate_prediction_sound_example =
    evaluate_prediction_sound always_second played_session card_config choice_intent
      {r = prediction_result (codes "red") (codes "black") second}
      (outcome_of (prediction_result (codes "red") (codes "black") second)) card_run refl
