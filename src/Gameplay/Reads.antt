-- ===== src/Gameplay/Reads.antt =====
-- `retrieve_outcome_audit` of app/services/gameplay.py and `player_rewards` of
-- app/services/rewards.py.
use python_rng_game_platform.Base.{ℕ, not, ◌==◌, List, Result, ok, raise_if, ◌>>=◌, ◌>>◌}
use python_rng_game_platform.Models.Errors.{Error, not_found, forbidden}
use python_rng_game_platform.Models.Json.{Fields}
use python_rng_game_platform.Models.Rows.{Outcome, Reward}
use python_rng_game_platform.GameRules.{or_raise}
use python_rng_game_platform.Store.{Db, get_player}
use python_rng_game_platform.Store.Gameplay.{get_outcome_audit, list_player_rewards}
use python_rng_game_platform.Fairness.Retrieve.{owned_outcome}

-- An accepted outcome and the evidence of its audit record.
pub record Audited : Type 0 where
  pub outcome : Outcome
  pub evidence : Fields

unfoldable pub retrieve_outcome_audit : ℕ → ℕ → Db → Result Error Audited
retrieve_outcome_audit outcome_id owner_id db = do
  outcome ← owned_outcome outcome_id owner_id db
  audit ← or_raise (get_outcome_audit outcome_id db) not_found
  ok (record { outcome = outcome; evidence = audit.evidence })

unfoldable pub player_rewards : ℕ → ℕ → ℕ → ℕ → Db → Result Error (List Reward)
player_rewards player_id owner_id limit offset db = do
  raise_if (not (player_id == owner_id)) forbidden
  player ← or_raise (get_player player_id db) not_found
  ok (list_player_rewards player_id limit offset db)
