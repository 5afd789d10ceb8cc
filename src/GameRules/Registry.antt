-- ===== src/GameRules/Registry.antt =====
-- The registry of app/game_rules.py: which game supports what.
use python_rng_game_platform.Base.{
  ℕ, Bool, true, false, not, ◌||◌, List, Option, none, some, ◌==ˢ◌, if◌then◌else◌, Text, codes,
  Result, ok, err, ◌>>=◌, ◌>>◌, raise_if,
}
use python_rng_game_platform.Models.Json.{array, Fields, end, field}
use python_rng_game_platform.Models.Errors.{Error, invalid_rules_input}
use python_rng_game_platform.Models.Rows.{GameConfigVersion, GameSession, Outcome}
use python_rng_game_platform.GameRules.{
  GameKey, daily_spin, prediction_card, skill_check, key_text, PlayIntent, OutcomeProvider,
  daily_spin_value, evaluate_prediction, prediction_retry_matches, prediction_value, evaluate_skill,
  skill_value,
}

-- `GameKey(text)`, or a `ValueError`.
unfoldable pub game_key_of : Text → Option GameKey
game_key_of t =
    if t ==ˢ key_text daily_spin
    then some daily_spin
    else if t ==ˢ key_text prediction_card
    then some prediction_card
    else if t ==ˢ key_text skill_check
    then some skill_check
    else none

pub data Mode : Type 0 where
  direct fairness : Mode

-- An entry: how its outcome comes about, and whether it has scores and settlements.
pub record RegisteredGame : Type 0 where
  pub key : GameKey
  pub mode : Mode
  pub leaderboard : Bool
  pub settlement : Bool

unfoldable pub registered : GameKey → RegisteredGame
registered daily_spin = record {
  key = daily_spin;
  mode = fairness;
  leaderboard = true;
  settlement = false;
}
registered prediction_card = record {
  key = prediction_card;
  mode = direct;
  leaderboard = true;
  settlement = false;
}
registered skill_check = record {
  key = skill_check;
  mode = direct;
  leaderboard = true;
  settlement = true;
}

unfoldable pub rules_for : Text → Result Error RegisteredGame
unfolding game_key_of registered
rules_for game_key = elim (game_key_of game_key) [
  | none ↦ err invalid_rules_input
  | some key ↦ ok (registered key)
]

unfoldable pub fairness_rules_for : Text → Result Error RegisteredGame
fairness_rules_for game_key = do
  game ← rules_for game_key
  raise_if (elim game.mode [ fairness ↦ false | direct ↦ true ]) invalid_rules_input
  ok game

unfoldable pub leaderboard_rules_for : Text → Result Error RegisteredGame
leaderboard_rules_for game_key = do
  game ← rules_for game_key
  raise_if (not game.leaderboard) invalid_rules_input
  ok game

unfoldable pub settlement_rules_for : Text → Result Error RegisteredGame
settlement_rules_for game_key = do
  game ← rules_for game_key
  raise_if (not game.settlement || not game.leaderboard) invalid_rules_input
  ok game

-- `definition.create_challenge()`; the sequence of a skill check is drawn by the system.
unfoldable pub create_challenge : GameKey → List ℕ → Fields
create_challenge skill_check sequence = field (codes "sequence") (array sequence) end
create_challenge _ sequence = end

-- `definition.reward_value`
unfoldable pub rules_reward_value : GameKey → GameConfigVersion → Outcome → Result Error ℕ
rules_reward_value daily_spin = daily_spin_value
rules_reward_value prediction_card = prediction_value
rules_reward_value skill_check = skill_value

-- `leaderboard.leaderboard_score`
unfoldable pub leaderboard_score : GameKey → GameConfigVersion → Outcome → Result Error ℕ
leaderboard_score daily_spin = daily_spin_value
leaderboard_score prediction_card = prediction_value
leaderboard_score skill_check = skill_value

-- `direct_play.retry_matches`; `none` declines.
unfoldable pub retry_matches : GameKey → Outcome → PlayIntent → Option Bool
retry_matches prediction_card outcome intent = some (prediction_retry_matches outcome intent)
retry_matches _ outcome intent = none

-- `direct_play.evaluate`; a game of fairness has none.
unfoldable pub evaluate :
    GameKey
    → OutcomeProvider
    → (ℕ → ℕ)
    → ℕ
    → GameSession
    → GameConfigVersion
    → PlayIntent
    → Result Error Fields
evaluate daily_spin provider milliseconds now game_session config intent = err invalid_rules_input
evaluate prediction_card provider milliseconds now game_session config intent =
    evaluate_prediction provider game_session config intent
evaluate skill_check provider milliseconds now game_session config intent =
    evaluate_skill milliseconds now game_session config intent
