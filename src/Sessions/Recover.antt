-- ===== src/Sessions/Recover.antt =====
-- `retrieve_player_game_state` of app/services/sessions.py.
pub mod Cooldown
use python_rng_game_platform.Base.{
  ℕ, ◌+◌, not, List, [], ◌∷◌, Option, none, some, ltb, ◌==◌, if◌then◌else◌, Text, Result, ok, err,
  raise_if, ◌>>=◌, ◌>>◌,
}
use python_rng_game_platform.Models.Errors.{Error, not_found, forbidden}
use python_rng_game_platform.Models.Schemas.{validate_payload, cooldown_of}
use python_rng_game_platform.Models.Rows.{
  Player, Game, GameSession, Outcome, Reward, FairnessProof, FinalScore,
}
use python_rng_game_platform.GameRules.{or_raise}
use python_rng_game_platform.Store.{
  Db, Reply, rolled_back, committed, get_player, get_game, get_active_config, get_config_by_id,
  lock_expired_active_sessions, latest_session, get_outcome_by_session,
}
use python_rng_game_platform.Store.Gameplay.{get_reward_by_session, get_fairness_proof_by_session}
use python_rng_game_platform.Store.Leaderboards.{get_final_score_by_session}
use python_rng_game_platform.Platform.{Platform}
use python_rng_game_platform.Sessions.Create.{seconds, finalize_all}

pub record PlayerGameState : Type 0 where
  pub server_time : ℕ
  pub next_play_at : Option ℕ
  pub game_key : Text
  pub game_session : Option GameSession
  pub outcome : Option Outcome
  pub reward : Option Reward
  pub fairness_proof : Option FairnessProof
  pub final_score : Option FinalScore

-- When the next session may begin, if the cooldown of the latest one still runs.
unfoldable pub next_play : Option GameSession → ℕ → Db → Result Error (Option ℕ)
next_play none now db = ok none
next_play (some latest) now db = do
  config ← or_raise (get_config_by_id latest.config_version_id db) not_found
  payload ← validate_payload config.payload
  ok (
      if ltb now (latest.created_at + seconds (cooldown_of payload))
      then some (latest.created_at + seconds (cooldown_of payload))
      else none)

-- What a session has led to; without a session there is nothing.
abbrev pub of_session : {A : Type 0} → Option GameSession → (ℕ → Db → Option A) → Db → Option A
of_session none query db = none
of_session (some s) query db = query s.id db

-- The player and the game that are asked for, and that the game has a configuration.
pub record Asked : Type 0 where
  pub player : Player
  pub game : Game

unfoldable pub asked_state : ℕ → ℕ → Text → Db → Result Error Asked
asked_state player_id owner_id game_key db = do
  raise_if (not (player_id == owner_id)) forbidden
  player ← or_raise (get_player player_id db) not_found
  game ← or_raise (get_game game_key db) not_found
  config ← or_raise (get_active_config game.id db) not_found
  ok (record { player = player; game = game })

unfoldable pub state_of : Game → Option GameSession → ℕ → Db → Result Error PlayerGameState
unfolding next_play
state_of game latest now work = do
  next_play_at ← next_play latest now work
  ok (record {
    server_time = now;
    next_play_at = next_play_at;
    game_key = game.key;
    game_session = latest;
    outcome = of_session latest get_outcome_by_session work;
    reward = of_session latest get_reward_by_session work;
    fairness_proof = of_session latest get_fairness_proof_by_session work;
    final_score = of_session latest get_final_score_by_session work;
  })

-- The state, and the tables that it was read from.
pub record Recovered : Type 0 where
  pub state : PlayerGameState
  pub work : Db

unfoldable pub recover : Platform → Asked → List GameSession → ℕ → Db → Result Error Recovered
unfolding state_of
recover platform asked expired_sessions now db = do
  work ← finalize_all platform expired_sessions now db
  state ← state_of asked.game (latest_session asked.player.id asked.game.id work) now work
  ok (record { state = state; work = work })

-- `if expired_sessions: await session.commit()`
abbrev pub commit_expired : List GameSession → Db → Db → Db
commit_expired [] work db = db
commit_expired (s ∷ sessions) work db = work

unfoldable pub recover_asked : Platform → Asked → ℕ → Db → Reply PlayerGameState
unfolding recover
recover_asked platform asked now db =
    let expired = lock_expired_active_sessions asked.player.id asked.game.id now db in
    elim (recover platform asked expired now db) [
      | err e ↦ rolled_back e db
      | ok done ↦ committed done.state (commit_expired expired done.work db)
    ]

unfoldable pub retrieve_player_game_state : Platform → ℕ → ℕ → Text → ℕ → Db → Reply PlayerGameState
unfolding asked_state recover_asked
retrieve_player_game_state platform player_id owner_id game_key now db =
    elim (asked_state player_id owner_id game_key db) [
      | err e ↦ rolled_back e db
      | ok asked ↦ recover_asked platform asked now db
    ]
