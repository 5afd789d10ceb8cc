-- ===== src/Tests/Sessions.antt =====
-- The theorems on sessions at requests that meet their hypotheses.
use python_rng_game_platform.Base.{ℕ, ◌≡◌, refl, [], ◌∷◌, none, some, ◌==ˢ◌, codes, ok, err}
use python_rng_game_platform.Rng.Encoding.{
  hex, hex_digit, to_bytes, int_from_bytes, from_big_endian,
}
use python_rng_game_platform.Models.Errors.{not_found}
use python_rng_game_platform.Models.Json.{array, end, field}
use python_rng_game_platform.Models.Schemas.{validate_payload, between, payload_fits}
use python_rng_game_platform.Models.Rows.{Player, SessionStatus, GameSession}
use python_rng_game_platform.GameRules.{key_text}
use python_rng_game_platform.GameRules.Registry.{
  rules_for, game_key_of, registered, create_challenge,
}
use python_rng_game_platform.Store.{
  lock_fairness_proof_by_session, committed, top, lock_session, get_session_by_request, put_session,
  lock_expired_active_sessions, latest_session, add_session, get_player, get_game,
  get_active_config,
}
use python_rng_game_platform.Store.Evidence.{
  add_audit, add_event, add_session_audit, add_session_started_event,
}
use python_rng_game_platform.Platform.{request_fingerprint}
use python_rng_game_platform.Sessions.Cancel.{
  cancel_live, cancel_finalized, cancel_owned, cancel_session,
}
use python_rng_game_platform.Sessions.Cancel.Over.{IsOver, cancel_session-IsOver}
use python_rng_game_platform.Sessions.{
  ended, cancel_active, end_session_proof, is_due, finalize_session, owned_session,
}
use python_rng_game_platform.Sessions.Create.{
  CreateCall, create_fingerprint, finalize_all, check_latest, check_offer, check_free,
  expire_elapsed, check_opening, record_session, open_session, serve, create_session,
}
use python_rng_game_platform.Sessions.Create.Effect.{
  IsOpened, create_session_opens, create_session_refused,
}
use python_rng_game_platform.Sessions.Create.Once.{create_session_once}
use python_rng_game_platform.Tests.{platform, active_session, tables, playing}

abbrev create_call : ℕ → CreateCall
create_call now = record {
  request_id = 4;
  player_id = 1;
  owner_id = 1;
  game_key = codes "skill_check";
  now = now;
  session_id = 9;
  created_at = now;
  sequence = 4 ∷ 2 ∷ 7 ∷ [];
}

abbrev created : GameSession
created = record {
  id = 9;
  created_at = 1000;
  player_id = 1;
  game_id = 2;
  config_version_id = 3;
  request_id = 4;
  request_fingerprint = hex (to_bytes 32 0);
  status = SessionStatus.active;
  expires_at = 30001000;
  ended_at = none;
  challenge = field (codes "sequence") (array (4 ∷ 2 ∷ 7 ∷ [])) end;
}

create_run : (create_session platform (create_call 1000) (tables [])).result ≡ ok created
unfolding create_session serve open_session check_opening check_offer expire_elapsed finalize_all
    check_free check_latest record_session get_player get_session_by_request get_game
    get_active_config top lock_expired_active_sessions latest_session validate_payload between
    payload_fits rules_for game_key_of registered key_text ◌==ˢ◌ create_challenge create_fingerprint
    request_fingerprint add_session add_session_audit add_session_started_event add_audit add_event
    hex hex_digit to_bytes int_from_bytes from_big_endian
create_run = refl

create_session_once_example :
    create_session platform
      (create_call 2000)
      (create_session platform (create_call 1000) (tables [])).durable
    ≡ committed created (create_session platform (create_call 1000) (tables [])).durable
create_session_once_example =
    create_session_once platform (create_call 1000) (create_call 2000) (tables []) {s = created}
      create_run (record { request = refl; player = refl; owner = refl; game = refl })

no_request : get_session_by_request 4 (tables []) ≡ none
unfolding get_session_by_request
no_request = refl

create_session_opens_example :
    (player : Player) × (get_player 1 (tables []) ≡ some player)
    × IsOpened platform
        (create_call 1000)
        player
        created
        (tables [])
        (create_session platform (create_call 1000) (tables [])).durable
create_session_opens_example =
    create_session_opens platform (create_call 1000) (tables []) {s = created} no_request create_run

unknown_run :
    (create_session platform (create_call 1000) (record playing { players = [] })).result
    ≡ err not_found
unfolding create_session get_player
unknown_run = refl

create_session_refused_example :
    (create_session platform (create_call 1000) (record playing { players = [] })).durable
    ≡ record playing { players = [] }
create_session_refused_example =
    create_session_refused platform (create_call 1000) (record playing { players = [] }) unknown_run

cancel_run :
    (cancel_session platform 9 1 3000 playing).result
    ≡ ok (ended SessionStatus.cancelled 3000 active_session)
unfolding cancel_session cancel_owned cancel_finalized cancel_live cancel_active end_session_proof
    lock_fairness_proof_by_session put_session owned_session lock_session finalize_session is_due
cancel_run = refl

cancel_session-IsOver_example :
    IsOver 9
      (ended SessionStatus.cancelled 3000 active_session)
      (cancel_session platform 9 1 3000 playing).durable
cancel_session-IsOver_example =
    cancel_session-IsOver platform 9 1 3000 playing
      {r = ended SessionStatus.cancelled 3000 active_session} cancel_run
