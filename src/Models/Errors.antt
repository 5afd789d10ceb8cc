-- ===== src/Models/Errors.antt =====
-- The failures of app/services/errors.py and app/domain_errors.py, those of app/game_rules.py, and
-- what the program lets pass: pydantic's ValidationError, the database's IntegrityError, and
-- Python's own errors.
use python_rng_game_platform.Rng.Types.{FairnessError}

pub data Error : Type 0 where
  not_found forbidden game_inactive player_inactive cooldown_active active_session_exists : Error
  invalid_play daily_spin_fairness_required idempotency_conflict session_expired : Error
  reward_unavailable invalid_transition : Error
  leaderboard_game_ineligible leaderboard_period_closed leaderboard_entry_not_found : Error
  leaderboard_period_open settlement_forbidden : Error
  invalid_rules_input : Error
  fairness : FairnessError → Error
  validation_error integrity_error index_error zero_division_error : Error
  runtime_error still_drawing : Error
