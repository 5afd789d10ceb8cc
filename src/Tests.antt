-- ===== src/Tests.antt =====
-- The theorems on the services of app/services at requests that meet their hypotheses.
pub mod Fairness
pub mod Boards
pub mod Sessions
use python_rng_game_platform.Base.{
  arith, false, ℕ, ◌≡◌, ◌≢◌, refl, true, List, [], ◌∷◌, none, some, ◌==◌, ◌==ˢ◌, codes, ok, err,
}
use python_rng_game_platform.Rng.Crypto.{toy}
use python_rng_game_platform.Rng.Encoding.{
  hex, hex_digit, uuid_str, dashed, group, to_bytes, int_from_bytes, from_big_endian,
}
use python_rng_game_platform.Models.Errors.{Error, not_found, session_expired}
use python_rng_game_platform.Models.Json.{array, end, field, get}
use python_rng_game_platform.Models.Schemas.{
  skill_check_config, shaped, validate_payload, between, payload_fits,
}
use python_rng_game_platform.Models.Rows.{
  PlayerStatus, Player, ConfigStatus, SessionStatus, GameSession, Outcome, Reward,
}
use python_rng_game_platform.GameRules.{
  key_text, evaluate_skill, skill_play, score_play, correct_prefix, has_duplicates,
  validated_config, skill_result, skill_value,
}
use python_rng_game_platform.GameRules.Registry.{
  rules_for, game_key_of, registered, evaluate, rules_reward_value, create_challenge,
}
use python_rng_game_platform.Store.{
  lock_fairness_proof_by_session, Db, committed, replace, top, lock_session, get_session_by_request,
  put_session, lock_expired_active_sessions, latest_session, add_session, new_outcome, add_outcome,
  new_reward, add_reward, lock_reward_by_session, put_reward, get_player, get_game, get_game_by_id,
  get_config_by_id, get_active_config,
}
use python_rng_game_platform.Store.Evidence.{
  add_audit, add_event, add_outcome_audit, add_session_audit, add_game_played_event,
  add_session_started_event, add_reward_evidence, game_key_for_reward,
}
use python_rng_game_platform.EventHub.{Hub, new_subscription, publish}
use python_rng_game_platform.EventHub.Bounds.{IsHub, publishes, Step-IsHub}
use python_rng_game_platform.Platform.{Platform, request_fingerprint}
use python_rng_game_platform.Sessions.Cancel.{
  cancel_live, cancel_finalized, cancel_owned, cancel_session,
}
use python_rng_game_platform.Sessions.Cancel.Over.{IsOver, cancel_session-IsOver}
use python_rng_game_platform.Sessions.{
  ended, cancel_active, end_session_proof, is_due, finalize_session, owned_session,
}
use python_rng_game_platform.Sessions.Create.{
  CreateCall, create_fingerprint, finalize_all, check_latest, check_offer, check_free,
  expire_elapsed, check_opening, record_session, open_session, serve, create_session,
}
use python_rng_game_platform.Sessions.Create.Effect.{
  IsOpened, create_session_opens, create_session_refused,
}
use python_rng_game_platform.Sessions.Create.Once.{create_session_once}
use python_rng_game_platform.Claims.{
  reward_value, claim_reward, finish_claim, claim_owned, claim_session_reward,
}
use python_rng_game_platform.Claims.Once.{
  claimed_at, IsClaimed, claim_session_reward_effect, claim_session_reward_once,
}
use python_rng_game_platform.Gameplay.{
  PlayCall, evaluate_bound, evaluate_play, record_play, play_active, play_finalized, play_owned,
  play_session,
}
use python_rng_game_platform.Gameplay.Atomic.{play_session_atomic}
use python_rng_game_platform.Gameplay.Effect.{IsAnswered, play_session_effect}
use python_rng_game_platform.Gameplay.Once.{play_session_once}

abbrev pub platform : Platform
platform = record {
  crypto = toy;
  dumps = λ fields. [];
  provider =
      λ session_id game_key config_id purpose bound. ok (record { value = 0; digest_hex = [] });
  milliseconds = λ t. t;
  timestamp = λ t. [];
  fuel = 8;
}

abbrev pub active_session : GameSession
active_session = record {
  id = 9;
  created_at = 1000;
  player_id = 1;
  game_id = 2;
  config_version_id = 3;
  request_id = 4;
  request_fingerprint = codes "f";
  status = SessionStatus.active;
  expires_at = 9000;
  ended_at = none;
  challenge = field (codes "sequence") (array (4 ∷ 2 ∷ 7 ∷ [])) end;
}

abbrev pub tables : List GameSession → Db
tables sessions = record {
  players =
      record {
        id = 1;
        display_name = codes "Ann";
        public_label = codes "p-1";
        status = PlayerStatus.active;
      }
      ∷ [];
  games = record { id = 2; key = codes "skill_check"; is_active = true } ∷ [];
  configs =
      record {
        id = 3;
        game_id = 2;
        version = 1;
        status = ConfigStatus.published;
        payload = shaped (
            skill_check_config
              (record { cooldown_seconds = 0; duration_seconds = 30; max_score = 100 }));
      }
      ∷ [];
  sessions = sessions;
  outcomes = [];
  rewards = [];
  proofs = [];
  custodies = [];
  proof_events = [];
  audits = [];
  analytics = [];
  scores = [];
  revisions = [];
  tier_configs = [];
  runs = [];
  recipients = [];
}

abbrev pub playing : Db
playing = tables (active_session ∷ [])

abbrev play_call : ℕ → PlayCall
play_call owner_id = record {
  session_id = 9;
  owner_id = owner_id;
  intent = record { choice = none; actions = some (4 ∷ 2 ∷ 5 ∷ []) };
  now = 3000;
  outcome_id = 5;
  reward_id = 6;
  created_at = 3000;
}

abbrev pub answer : Outcome
answer = new_outcome 5 active_session (skill_result 66 2 3 2000)

play_run : (play_session platform (play_call 1) playing).result ≡ ok answer
unfolding play_session play_owned play_finalized play_active evaluate_play evaluate_bound
    record_play owned_session lock_session finalize_session is_due get_game_by_id get_config_by_id
    rules_for game_key_of registered key_text evaluate evaluate_skill skill_play score_play
    correct_prefix has_duplicates validated_config validate_payload between payload_fits get ◌==ˢ◌
    add_outcome reward_value rules_reward_value skill_value add_reward add_outcome_audit put_session
    replace add_game_played_event add_reward_evidence add_audit add_event uuid_str dashed group hex
    hex_digit to_bytes
play_run = refl

play_session_effect_example :
    IsAnswered platform
      (play_call 1)
      answer
      playing
      (play_session platform (play_call 1) playing).durable
play_session_effect_example =
    play_session_effect platform (play_call 1) playing {o = answer} play_run

play_session_once_example :
    (play_session platform
      (play_call 7)
      (play_session platform (play_call 1) playing).durable).durable
    ≡ (play_session platform (play_call 1) playing).durable
play_session_once_example =
    play_session_once platform (play_call 1) (play_call 7) playing {o = answer} refl play_run

stranger_run : (play_session platform (play_call 7) playing).result ≡ err Error.forbidden
unfolding play_session owned_session lock_session
stranger_run = refl

forbidden-session_expired : Error.forbidden ≢ session_expired
forbidden-session_expired e = cc

play_session_atomic_example : (play_session platform (play_call 7) playing).durable ≡ playing
play_session_atomic_example =
    play_session_atomic platform (play_call 7) playing stranger_run forbidden-session_expired

abbrev issued : Reward
issued = new_reward 6 3000 answer 1 66

abbrev rewarded : Db
rewarded = record playing { outcomes = answer ∷ []; rewards = issued ∷ [] }

claim_run : (claim_session_reward 9 1 4000 rewarded).result ≡ ok (claimed_at 4000 issued)
unfolding claim_session_reward claim_owned claim_reward finish_claim lock_reward_by_session
    game_key_for_reward add_reward_evidence put_reward replace add_audit add_event
claim_run = refl

claim_session_reward_effect_example :
    (old : Reward) × (lock_reward_by_session 9 rewarded ≡ some old)
    × ((old.player_id == 1) ≡ true)
    × IsClaimed 4000 old
        (claimed_at 4000 issued)
        rewarded
        (claim_session_reward 9 1 4000 rewarded).durable
claim_session_reward_effect_example =
    claim_session_reward_effect 9 1 4000 rewarded {r = claimed_at 4000 issued} claim_run

claim_session_reward_once_example :
    claim_session_reward 9 1 5000 (claim_session_reward 9 1 4000 rewarded).durable
    ≡ committed (claimed_at 4000 issued) (claim_session_reward 9 1 4000 rewarded).durable
claim_session_reward_once_example =
    claim_session_reward_once 9 1 4000 5000 rewarded {r = claimed_at 4000 issued} claim_run

abbrev hub : Hub
hub = record {
  queue_size = 1;
  subscriptions = new_subscription 1 (codes "g") 7 1 ∷ [];
  registered = 1 ∷ [];
  is_shutdown = false;
}

Step-IsHub_example : IsHub (publish (record { game_key = codes "g"; period_start = 7 }) hub)
Step-IsHub_example =
    Step-IsHub {before = hub}
      {after = publish (record { game_key = codes "g"; period_start = 7 }) hub}
      (publishes (record { game_key = codes "g"; period_start = 7 }) hub)
      (record { positive = omega arith; bounded = ((omega arith, omega arith), tt) })
