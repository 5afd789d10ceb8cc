-- ===== src/Gameplay.antt =====
-- app/services/gameplay.py: `play_session`.
pub mod Atomic
pub mod Rows
pub mod Effect
pub mod Once
pub mod Reads
use python_rng_game_platform.Base.{
  ℕ, Bool, true, false, not, ◌||◌, Option, none, some, ◌==◌, if◌then◌else◌, Text, codes, Result, ok,
  err, raise_if, ◌>>=◌, ◌>>◌,
}
use python_rng_game_platform.Models.Errors.{
  Error, not_found, session_expired, idempotency_conflict, invalid_transition, invalid_play,
  daily_spin_fairness_required,
}
use python_rng_game_platform.Models.Json.{Fields}
use python_rng_game_platform.Models.Rows.{
  Game, GameConfigVersion, GameSession, SessionStatus, Outcome, is_active_session,
}
use python_rng_game_platform.GameRules.{PlayIntent}
use python_rng_game_platform.GameRules.Registry.{
  Mode, direct, fairness, RegisteredGame, rules_for, retry_matches, evaluate,
}
use python_rng_game_platform.Store.{
  Db, Reply, rolled_back, committed, put_session, get_outcome_by_session, get_game_by_id,
  get_config_by_id, new_outcome, add_outcome, new_reward, add_reward,
}
use python_rng_game_platform.Store.Evidence.{
  add_outcome_audit, add_game_played_event, add_reward_evidence,
}
use python_rng_game_platform.Platform.{Platform}
use python_rng_game_platform.Sessions.{ended, finalize_expired_session, Finalized, owned_session}
use python_rng_game_platform.Claims.{as_invalid_play, reward_value}

-- The arguments of a play: the request, the clock, and the keys that the new rows are given.
pub record PlayCall : Type 0 where
  pub session_id : ℕ
  pub owner_id : ℕ
  pub intent : PlayIntent
  pub now : ℕ
  pub outcome_id : ℕ
  pub reward_id : ℕ
  pub created_at : ℕ

-- What the rules of a completed session's game say of a repeated request; `none` when they decline
-- or the game is not played directly.
abbrev pub replay_verdict : RegisteredGame → Outcome → PlayIntent → Option Bool
replay_verdict registered_game outcome intent = elim registered_game.mode [
  | direct ↦ retry_matches registered_game.key outcome intent
  | fairness ↦ none
]

abbrev pub judge_replay : Option Bool → Outcome → Result Error Outcome
judge_replay (some true) outcome = ok outcome
judge_replay (some false) outcome = err idempotency_conflict
judge_replay none outcome = err invalid_transition

abbrev pub replay_found : Option Game → Option Outcome → PlayIntent → Result Error Outcome
replay_found (some game) (some outcome) intent = do
  registered_game ← as_invalid_play (rules_for game.key)
  judge_replay (replay_verdict registered_game outcome intent) outcome
replay_found _ _ intent = err invalid_transition

-- The branch of a session that is not active, by its status.
unfoldable pub replay_at : SessionStatus → GameSession → PlayIntent → Db → Result Error Outcome
replay_at SessionStatus.completed s intent db =
    replay_found (get_game_by_id s.game_id db) (get_outcome_by_session s.id db) intent
replay_at _ s intent db = err invalid_transition

unfoldable pub replay : GameSession → PlayIntent → Db → Result Error Outcome
unfolding replay_at
replay s intent db = replay_at s.status s intent db

-- The game and the configuration that a session is bound to.
pub record Bound : Type 0 where
  pub game : Game
  pub config : GameConfigVersion

abbrev pub bound_of : Option Game → Option GameConfigVersion → Result Error Bound
bound_of (some game) (some config) =
    if config.game_id == game.id
    then ok (record { game = game; config = config })
    else err not_found
bound_of _ _ = err not_found

abbrev pub require_direct : RegisteredGame → Result Error RegisteredGame
require_direct registered_game = elim registered_game.mode [
  | direct ↦ ok registered_game
  | fairness ↦ err daily_spin_fairness_required
]

-- A play that the rules evaluated.
pub record Evaluated : Type 0 where
  pub game : Game
  pub config : GameConfigVersion
  pub result : Fields

unfoldable pub evaluate_bound : Platform → GameSession → PlayCall → Bound → Result Error Evaluated
evaluate_bound platform s call bound = do
  registered_game ← as_invalid_play (rules_for bound.game.key)
  playable ← require_direct registered_game
  result ← as_invalid_play (
      evaluate playable.key platform.provider platform.milliseconds call.now s bound.config
        call.intent)
  ok (record { game = bound.game; config = bound.config; result = result })

unfoldable pub evaluate_play : Platform → GameSession → PlayCall → Db → Result Error Evaluated
unfolding evaluate_bound
evaluate_play platform s call db = do
  bound ← bound_of (get_game_by_id s.game_id db) (get_config_by_id s.config_version_id db)
  evaluate_bound platform s call bound

-- The rows that an evaluated play leaves, up to the commit.
unfoldable pub record_play : GameSession → PlayCall → Evaluated → Db → Result Error Db
record_play s call play db = do
  let outcome = new_outcome call.outcome_id s play.result
  with_outcome ← add_outcome outcome db
  value ← reward_value play.config outcome play.game.key
  let reward = new_reward call.reward_id call.created_at outcome call.owner_id value
  with_reward ← add_reward reward with_outcome
  let audited =
      add_outcome_audit outcome call.owner_id play.game.key
        (put_session (ended SessionStatus.completed call.now s) with_reward)
  with_event ← add_game_played_event outcome call.owner_id play.game.key audited
  add_reward_evidence (codes "reward_issued") reward play.game.key with_event

unfoldable pub play_active : Platform → GameSession → PlayCall → Db → Db → Reply Outcome
unfolding evaluate_play record_play
play_active platform s call db work = elim (evaluate_play platform s call work) [
  | err e ↦ rolled_back e db
  | ok play ↦ elim (record_play s call play work) [
    | err e ↦ rolled_back e db
    | ok after ↦ committed (new_outcome call.outcome_id s play.result) after
  ]
]

unfoldable pub replayed : GameSession → PlayCall → Db → Db → Reply Outcome
unfolding replay
replayed s call db work = elim (replay s call.intent work) [
  | err e ↦ rolled_back e db
  | ok outcome ↦ committed outcome work
]

-- What follows the finalization: its commit, the replay of an ended session, or the play.
unfoldable pub play_finalized : Platform → GameSession → PlayCall → Db → Finalized → Reply Outcome
unfolding play_active replayed
play_finalized platform s call db fin =
    if fin.changed
    then record { result = err session_expired; durable = fin.work }
    else if not (is_active_session s.status)
    then replayed s call db fin.work
    else play_active platform s call db fin.work

unfoldable pub play_owned : Platform → GameSession → PlayCall → Db → Reply Outcome
unfolding play_finalized
play_owned platform s call db = elim (finalize_expired_session platform s call.now db) [
  | err e ↦ rolled_back e db
  | ok fin ↦ play_finalized platform s call db fin
]

unfoldable pub play_session : Platform → PlayCall → Db → Reply Outcome
unfolding play_owned
play_session platform call db = elim (owned_session call.session_id call.owner_id db) [
  | err e ↦ rolled_back e db
  | ok s ↦ play_owned platform s call db
]
