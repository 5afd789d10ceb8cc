-- ===== src/Store/Evidence.antt =====
-- The audit records and analytics events of app/persistence/gameplay.py and analytics.py.
use python_rng_game_platform.Base.{
  ℕ, [], ◌∷◌, ◌++◌, Option, none, some, ◌==◌, ◌==ˢ◌, if◌then◌else◌, Text, codes, find?, any, Result,
  ok, err,
}
use python_rng_game_platform.Rng.Encoding.{uuid_str}
use python_rng_game_platform.Models.Errors.{Error, integrity_error}
use python_rng_game_platform.Models.Json.{Json, text, number, instant, object, Fields, end, field}
use python_rng_game_platform.Models.Rows.{
  GameSession, Outcome, Reward, RewardStatus, AuditRecord, AnalyticsEvent,
}
use python_rng_game_platform.Store.{Db}

abbrev pub uuid_json : ℕ → Json
uuid_json id = text (uuid_str id)

abbrev pub optional_uuid : Option ℕ → Json
optional_uuid none = Json.null
optional_uuid (some id) = uuid_json id

abbrev pub reward_status_text : RewardStatus → Text
reward_status_text RewardStatus.issued = codes "issued"
reward_status_text RewardStatus.claimed = codes "claimed"
reward_status_text RewardStatus.expired = codes "expired"

unfoldable pub add_audit : AuditRecord → Db → Db
add_audit a db = record db { audits = db.audits ++ a ∷ [] }

-- The event keys are unique; a clash shows at the latest in the flush of the commit.
unfoldable pub add_event : AnalyticsEvent → Db → Result Error Db
add_event new db =
    if any (λ e. e.event_key ==ˢ new.event_key) db.analytics
    then err integrity_error
    else ok (record db { analytics = db.analytics ++ new ∷ [] })

abbrev pub outcome_audit : Outcome → ℕ → Text → AuditRecord
outcome_audit o player_id game_key = record {
  event_type = codes "outcome_accepted";
  entity_type = codes "outcome";
  entity_id = o.id;
  evidence = field (codes "session_id") (uuid_json o.session_id) (
      field (codes "player_id") (uuid_json player_id) (
        field (codes "game_key") (text game_key) (
          field (codes "config_version_id") (uuid_json o.config_version_id)
            (field (codes "result") (object o.result) end))));
}

unfoldable pub add_outcome_audit : Outcome → ℕ → Text → Db → Db
unfolding add_audit
add_outcome_audit o player_id game_key db = add_audit (outcome_audit o player_id game_key) db

abbrev pub session_audit : GameSession → AuditRecord
session_audit s = record {
  event_type = codes "session_started";
  entity_type = codes "session";
  entity_id = s.id;
  evidence = field (codes "player_id") (uuid_json s.player_id) (
      field (codes "game_id") (uuid_json s.game_id) (
        field (codes "config_version_id") (uuid_json s.config_version_id) (
          field (codes "request_id") (uuid_json s.request_id)
            (field (codes "expires_at") (instant s.expires_at) end))));
}

unfoldable pub add_session_audit : GameSession → Db → Db
unfolding add_audit
add_session_audit s db = add_audit (session_audit s) db

abbrev pub game_played_event : Outcome → ℕ → Text → AnalyticsEvent
game_played_event o player_id game_key = record {
  event_key = codes "game_played:" ++ uuid_str o.id;
  event_type = codes "game_played";
  player_id = player_id;
  payload = field (codes "outcome_id") (uuid_json o.id) (
      field (codes "session_id") (uuid_json o.session_id) (
        field (codes "game_key") (text game_key)
          (field (codes "config_version_id") (uuid_json o.config_version_id) end)));
}

unfoldable pub add_game_played_event : Outcome → ℕ → Text → Db → Result Error Db
unfolding add_event
add_game_played_event o player_id game_key db =
    add_event (game_played_event o player_id game_key) db

abbrev pub session_started_event : GameSession → Text → AnalyticsEvent
session_started_event s game_key = record {
  event_key = codes "session_started:" ++ uuid_str s.id;
  event_type = codes "session_started";
  player_id = s.player_id;
  payload = field (codes "session_id") (uuid_json s.id) (
      field (codes "game_key") (text game_key)
        (field (codes "config_version_id") (uuid_json s.config_version_id) end));
}

unfoldable pub add_session_started_event : GameSession → Text → Db → Result Error Db
unfolding add_event
add_session_started_event s game_key db = add_event (session_started_event s game_key) db

abbrev pub reward_evidence : Reward → Text → Fields
reward_evidence r game_key = field (codes "reward_id") (uuid_json r.id) (
    field (codes "outcome_id") (optional_uuid r.outcome_id) (
      field (codes "settlement_recipient_id") (optional_uuid r.settlement_recipient_id) (
        field (codes "player_id") (uuid_json r.player_id) (
          field (codes "value") (number r.value) (
            field (codes "status") (text (reward_status_text r.status))
              (field (codes "game_key") (text game_key) end))))))

abbrev pub reward_audit : Text → Reward → Text → AuditRecord
reward_audit event_type r game_key = record {
  event_type = event_type;
  entity_type = codes "reward";
  entity_id = r.id;
  evidence = reward_evidence r game_key;
}

abbrev pub reward_event : Text → Reward → Text → AnalyticsEvent
reward_event event_type r game_key = record {
  event_key = event_type ++ b':' ∷ uuid_str r.id;
  event_type = event_type;
  player_id = r.player_id;
  payload = reward_evidence r game_key;
}

unfoldable pub add_reward_evidence : Text → Reward → Text → Db → Result Error Db
unfolding add_audit add_event
add_reward_evidence event_type r game_key db =
    add_event (reward_event event_type r game_key)
      (add_audit (reward_audit event_type r game_key) db)

-- `game_key_for_reward`, along the joins from the reward to its game.
unfoldable pub game_key_for_reward : Reward → Db → Option Text
game_key_for_reward r db = elim r.outcome_id [
  | none ↦ none
  | some outcome_id ↦ elim (find? (λ o. o.id == outcome_id) db.outcomes) [
    | none ↦ none
    | some o ↦ elim (find? (λ s. s.id == o.session_id) db.sessions) [
      | none ↦ none
      | some s ↦ elim (find? (λ g. g.id == s.game_id) db.games) [
        | none ↦ none
        | some g ↦ some g.key
      ]
    ]
  ]
]
