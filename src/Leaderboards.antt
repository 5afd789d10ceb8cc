-- ===== src/Leaderboards.antt =====
-- app/services/leaderboards.py: `leaderboard_period`, the eligible games, and `submit_final_score`.
-- Instants count microseconds from Monday, 1 January of the year 1, 00:00 UTC.
pub mod Weeks
pub mod Order
pub mod Paging
pub mod Best
pub mod Read
pub mod Recorded
pub mod Derived
pub mod Once
use python_rng_game_platform.Base.{
  ℕ, ◌+◌, ◌-◌, ◌*◌, ◌/◌, ◌%◌, Bool, true, false, not, ◌||◌, Option, none, some, leb, ◌==◌,
  if◌then◌else◌, Text, Result, ok, err, raise_if, ◌>>=◌, ◌>>◌,
}
use python_rng_game_platform.Models.Errors.{
  Error, not_found, forbidden, game_inactive, player_inactive, invalid_play, invalid_transition,
  leaderboard_game_ineligible, leaderboard_period_closed, invalid_rules_input,
}
use python_rng_game_platform.Models.Rows.{
  Player, Game, GameConfigVersion, GameSession, SessionStatus, Outcome, OutcomeStatus, FinalScore,
  is_active_player,
}
use python_rng_game_platform.GameRules.Registry.{
  RegisteredGame, leaderboard_rules_for, settlement_rules_for, leaderboard_score,
}
use python_rng_game_platform.Store.{
  Db, Reply, rolled_back, committed, get_player, get_game, get_game_by_id, get_config_by_id,
  get_outcome_by_session,
}
use python_rng_game_platform.Store.Leaderboards.{
  get_final_score_by_session, add_final_score, add_final_score_evidence,
}
use python_rng_game_platform.Sessions.{owned_session}
use python_rng_game_platform.Claims.{as_invalid_play}
use python_rng_game_platform.Fairness.Evaluate.{require}

abbrev pub day : ℕ
day = 86400000000

abbrev pub week : ℕ
week = 7 * day

-- `datetime.weekday()`
abbrev pub weekday : ℕ → ℕ
weekday t = t / day % 7

-- `.replace(hour=0, minute=0, second=0, microsecond=0)`
abbrev pub midnight : ℕ → ℕ
midnight t = t - t % day

-- The start and the end of a period.
pub record Period : Type 0 where
  pub start : ℕ
  pub end : ℕ

unfoldable pub leaderboard_period : ℕ → Period
leaderboard_period completed_at =
    let start = midnight (completed_at - weekday completed_at * day) in
    record { start = start; end = start + week }

-- `except InvalidRulesInputError`, raised again as `LeaderboardGameIneligibleError`.
abbrev pub as_ineligible : {A : Type 0} → Result Error A → Result Error A
as_ineligible (err invalid_rules_input) = err leaderboard_game_ineligible
as_ineligible r = r

unfoldable pub eligible_leaderboard_game : Text → Db → Result Error Game
eligible_leaderboard_game game_key db = do
  game ← require (get_game game_key db) not_found
  raise_if (not game.is_active) game_inactive
  as_ineligible (leaderboard_rules_for game.key)
  ok game

unfoldable pub eligible_settlement_game : Text → Db → Result Error Game
unfolding eligible_leaderboard_game
eligible_settlement_game game_key db = do
  game ← eligible_leaderboard_game game_key db
  as_ineligible (settlement_rules_for game.key)
  ok game

abbrev pub is_completed_session : SessionStatus → Bool
is_completed_session SessionStatus.completed = true
is_completed_session _ = false

abbrev pub is_accepted : OutcomeStatus → Bool
is_accepted OutcomeStatus.accepted = true
is_accepted OutcomeStatus.rejected = false

unfoldable pub active_player : ℕ → Db → Result Error Player
active_player player_id db = do
  player ← require (get_player player_id db) not_found
  raise_if (not (is_active_player player.status)) player_inactive
  ok player

-- The request, the clock, and the key that the new score is given.
pub record SubmitCall : Type 0 where
  pub session_id : ℕ
  pub owner_id : ℕ
  pub now : ℕ
  pub score_id : ℕ

-- What a submission answers: the score, whether it is new, and the key of its game.
pub record Submitted : Type 0 where
  pub score : FinalScore
  pub is_new : Bool
  pub game_key : Text

-- The completed session's end, and its accepted outcome.
abbrev pub completed_at : GameSession → Result Error ℕ
completed_at s =
    if is_completed_session s.status
    then require s.ended_at invalid_transition
    else err invalid_transition

abbrev pub accepted_outcome : Option Outcome → Result Error Outcome
accepted_outcome none = err invalid_transition
accepted_outcome (some o) = if is_accepted o.status then ok o else err invalid_transition

abbrev pub final_score_of :
    SubmitCall → GameSession → Game → Outcome → GameConfigVersion → ℕ → ℕ → FinalScore
final_score_of call s game outcome config ended value = record {
  id = call.score_id;
  player_id = call.owner_id;
  game_id = game.id;
  session_id = s.id;
  outcome_id = outcome.id;
  config_version_id = config.id;
  period_start = (leaderboard_period ended).start;
  completed_at = ended;
  final_score = value;
}

-- A score that may be written, with its game.
pub record Scored : Type 0 where
  pub game : Game
  pub score : FinalScore

unfoldable pub derive_score : SubmitCall → GameSession → Db → Result Error Scored
unfolding active_player
derive_score call s db = do
  active_player call.owner_id db
  game ← require (get_game_by_id s.game_id db) not_found
  rules ← as_ineligible (leaderboard_rules_for game.key)
  ended ← completed_at s
  outcome ← accepted_outcome (get_outcome_by_session s.id db)
  config ← require (get_config_by_id s.config_version_id db) not_found
  value ← as_invalid_play (leaderboard_score rules.key config outcome)
  raise_if (leb (leaderboard_period ended).end call.now) leaderboard_period_closed
  ok (record { game = game; score = final_score_of call s game outcome config ended value })

unfoldable pub record_score : Scored → Db → Result Error Db
record_score scored db = do
  with_score ← add_final_score scored.score db
  add_final_score_evidence scored.score scored.game.key with_score

unfoldable pub submit_new : SubmitCall → GameSession → Db → Reply Submitted
unfolding derive_score record_score
submit_new call s db = elim (derive_score call s db) [
  | err e ↦ rolled_back e db
  | ok scored ↦ elim (record_score scored db) [
    | err e ↦ rolled_back e db
    | ok work ↦
        committed (record { score = scored.score; is_new = true; game_key = scored.game.key }) work
  ]
]

-- A score that the session has is answered again.
unfoldable pub submit_again : GameSession → FinalScore → Db → Reply Submitted
submit_again s existing db = elim (get_game_by_id s.game_id db) [
  | none ↦ rolled_back not_found db
  | some game ↦ committed (record { score = existing; is_new = false; game_key = game.key }) db
]

unfoldable pub submit_owned : SubmitCall → GameSession → Db → Reply Submitted
unfolding submit_new submit_again
submit_owned call s db = elim (get_final_score_by_session call.session_id db) [
  | some existing ↦ submit_again s existing db
  | none ↦ submit_new call s db
]

unfoldable pub submit_final_score : SubmitCall → Db → Reply Submitted
unfolding submit_owned
submit_final_score call db = elim (owned_session call.session_id call.owner_id db) [
  | err e ↦ rolled_back e db
  | ok s ↦ submit_owned call s db
]
