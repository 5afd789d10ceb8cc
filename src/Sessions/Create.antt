-- ===== src/Sessions/Create.antt =====
-- `create_session` of app/services/sessions.py. Times are in microseconds.
pub mod Once
pub mod Effect
use python_rng_game_platform.Base.{
  ℕ, ◌+◌, ◌*◌, Bool, true, false, not, List, [], ◌∷◌, Option, none, some, ltb, ◌==◌, ◌==ˢ◌,
  if◌then◌else◌, Text, codes, Result, ok, err, raise_if, ◌>>=◌, ◌>>◌,
}
use python_rng_game_platform.Rng.Encoding.{uuid_str}
use python_rng_game_platform.Models.Errors.{
  Error, not_found, forbidden, game_inactive, player_inactive, cooldown_active,
  active_session_exists, idempotency_conflict,
}
use python_rng_game_platform.Models.Json.{text, end, field}
use python_rng_game_platform.Models.Schemas.{
  GameConfigPayload, validate_payload, cooldown_of, duration_of,
}
use python_rng_game_platform.Models.Rows.{
  Player, Game, GameConfigVersion, GameSession, SessionStatus, is_active_session, is_active_player,
}
use python_rng_game_platform.GameRules.{or_raise}
use python_rng_game_platform.GameRules.Registry.{RegisteredGame, rules_for, create_challenge}
use python_rng_game_platform.Store.{
  Db, Reply, rolled_back, committed, get_player, get_session_by_request, get_game,
  get_active_config, get_config_by_id, lock_expired_active_sessions, latest_session, add_session,
}
use python_rng_game_platform.Store.Evidence.{add_session_audit, add_session_started_event}
use python_rng_game_platform.Platform.{Platform, request_fingerprint}
use python_rng_game_platform.Sessions.{Finalized, finalize_expired_session}
use python_rng_game_platform.Claims.{as_invalid_play}

-- The request, the clock, and what the new row is given: its key, its creation time by the database,
-- and the drawn sequence of a challenge.
pub record CreateCall : Type 0 where
  pub request_id : ℕ
  pub player_id : ℕ
  pub owner_id : ℕ
  pub game_key : Text
  pub now : ℕ
  pub session_id : ℕ
  pub created_at : ℕ
  pub sequence : List ℕ

-- timedelta(seconds=...)
abbrev pub seconds : ℕ → ℕ
seconds n = n * 1000000

unfoldable pub create_fingerprint : Platform → CreateCall → Text
create_fingerprint platform call = request_fingerprint platform (codes "create_session") (
    field (codes "game_key") (text call.game_key)
      (field (codes "player_id") (text (uuid_str call.player_id)) end))

-- The loop over the elapsed sessions.
unfoldable pub finalize_all : Platform → List GameSession → ℕ → Db → Result Error Db
finalize_all platform [] now db = ok db
finalize_all platform (s ∷ sessions) now db = do
  done ← finalize_expired_session platform s now db
  finalize_all platform sessions now done.work

-- The guards on the latest session: it is over, and its cooldown has passed.
unfoldable pub check_latest : Option GameSession → ℕ → Db → Result Error (Unit {0})
check_latest none now db = ok tt
check_latest (some latest) now db = do
  raise_if (is_active_session latest.status) active_session_exists
  config ← or_raise (get_config_by_id latest.config_version_id db) not_found
  payload ← validate_payload config.payload
  raise_if (ltb now (latest.created_at + seconds (cooldown_of payload))) cooldown_active

-- What the new session rests on.
pub record Opening : Type 0 where
  pub game : Game
  pub config : GameConfigVersion
  pub payload : GameConfigPayload
  pub registered_game : RegisteredGame
  pub work : Db

-- The game that may be played, and its configuration.
pub record Offer : Type 0 where
  pub game : Game
  pub config : GameConfigVersion

unfoldable pub check_offer : CreateCall → Player → Db → Result Error Offer
check_offer call player db = do
  raise_if (not (is_active_player player.status)) player_inactive
  game ← or_raise (get_game call.game_key db) not_found
  raise_if (not game.is_active) game_inactive
  config ← or_raise (get_active_config game.id db) not_found
  ok (record { game = game; config = config })

unfoldable pub check_free : CreateCall → Player → Offer → Db → Result Error Opening
unfolding check_latest
check_free call player offer work = do
  check_latest (latest_session player.id offer.game.id work) call.now work
  payload ← validate_payload offer.config.payload
  registered_game ← as_invalid_play (rules_for offer.game.key)
  ok (record {
    game = offer.game;
    config = offer.config;
    payload = payload;
    registered_game = registered_game;
    work = work;
  })

unfoldable pub expire_elapsed : Platform → CreateCall → Player → Offer → Db → Result Error Opening
unfolding finalize_all check_free
expire_elapsed platform call player offer db = do
  work ←
      finalize_all platform (lock_expired_active_sessions player.id offer.game.id call.now db)
        call.now db
  check_free call player offer work

unfoldable pub check_opening : Platform → CreateCall → Player → Db → Result Error Opening
unfolding check_offer expire_elapsed
check_opening platform call player db = do
  offer ← check_offer call player db
  expire_elapsed platform call player offer db

abbrev pub new_session : Platform → CreateCall → Player → Opening → GameSession
new_session platform call player o = record {
  id = call.session_id;
  created_at = call.created_at;
  player_id = player.id;
  game_id = o.game.id;
  config_version_id = o.config.id;
  request_id = call.request_id;
  request_fingerprint = create_fingerprint platform call;
  status = SessionStatus.active;
  expires_at = call.now + seconds (duration_of o.payload);
  ended_at = none;
  challenge = create_challenge o.registered_game.key call.sequence;
}

unfoldable pub record_session : GameSession → Text → Db → Result Error Db
record_session s game_key db = do
  added ← add_session s db
  add_session_started_event s game_key (add_session_audit s added)

unfoldable pub open_session : Platform → CreateCall → Player → Db → Reply GameSession
unfolding check_opening record_session
open_session platform call player db = elim (check_opening platform call player db) [
  | err e ↦ rolled_back e db
  | ok o ↦ elim (record_session (new_session platform call player o) o.game.key o.work) [
    | err e ↦ rolled_back e db
    | ok work ↦ committed (new_session platform call player o) work
  ]
]

-- A request that was served before, and one that was not.
unfoldable pub serve : Platform → CreateCall → Player → Option GameSession → Db → Reply GameSession
unfolding open_session create_fingerprint
serve platform call player (some existing) db =
    if not (existing.request_fingerprint ==ˢ create_fingerprint platform call)
    then rolled_back idempotency_conflict db
    else committed existing db
serve platform call player none db = open_session platform call player db

unfoldable pub create_session : Platform → CreateCall → Db → Reply GameSession
unfolding serve
create_session platform call db =
    if not (call.player_id == call.owner_id)
    then rolled_back forbidden db
    else elim (get_player call.player_id db) [
      | none ↦ rolled_back not_found db
      | some player ↦ serve platform call player (get_session_by_request call.request_id db) db
    ]
