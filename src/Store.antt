-- ===== src/Store.antt =====
-- The tables behind app/persistence, and what a query and a flush do to them. A request works on one
-- copy of the tables; `Reply` says what stays of it when the request ends.
pub mod Lookups
pub mod Evidence
pub mod Fairness
pub mod Gameplay
pub mod Leaderboards
pub mod Players
use python_rng_game_platform.Base.{
  ℕ, Bool, true, false, not, ◌&&◌, ◌||◌, List, [], ◌∷◌, ◌++◌, Option, none, some, leb, ltb, ◌==◌,
  ◌==ˢ◌, if◌then◌else◌, Text, find?, any, select, Result, ok, err,
}
use python_rng_game_platform.Models.Errors.{Error, integrity_error}
use python_rng_game_platform.Models.Json.{Fields}
use python_rng_game_platform.Models.Rows.{
  Player, Game, GameConfigVersion, GameSession, SessionStatus, Outcome, OutcomeStatus, Reward,
  RewardStatus, AuditRecord, AnalyticsEvent, FairnessProof, FairnessSeedCustody, FairnessProofEvent,
  is_active_session, is_published, FinalScore, LeaderboardProjectionRevision, RewardTierConfig,
  SettlementRun, SettlementRecipient,
}

pub record Db : Type 0 where
  pub players : List Player
  pub games : List Game
  pub configs : List GameConfigVersion
  pub sessions : List GameSession
  pub outcomes : List Outcome
  pub rewards : List Reward
  pub proofs : List FairnessProof
  pub custodies : List FairnessSeedCustody
  pub proof_events : List FairnessProofEvent
  pub audits : List AuditRecord
  pub analytics : List AnalyticsEvent
  pub scores : List FinalScore
  pub revisions : List LeaderboardProjectionRevision
  pub tier_configs : List RewardTierConfig
  pub runs : List SettlementRun
  pub recipients : List SettlementRecipient

-- What a request answers, and the tables that are durable after it.
pub record Reply (A : Type 0) : Type 0 where
  pub result : Result Error A
  pub durable : Db

-- A request that raises before its commit is rolled back.
abbrev pub rolled_back : {A : Type 0} → Error → Db → Reply A
rolled_back e db = record { result = err e; durable = db }

abbrev pub committed : {A : Type 0} → A → Db → Reply A
committed a work = record { result = ok a; durable = work }

-- UPDATE of the row with the key of `a`.
unfoldable pub replace : {A : Type 0} → (A → ℕ) → A → List A → List A
replace key a [] = []
replace key a (x ∷ xs) = (if key x == key a then a else x) ∷ replace key a xs

-- ORDER BY ... DESC LIMIT 1
unfoldable pub top : {A : Type 0} → (A → A → Bool) → List A → Option A
top after [] = none
top after (x ∷ xs) = elim (top after xs) [
  | none ↦ some x
  | some y ↦ if after y x then some y else some x
]

unfoldable pub lock_session : ℕ → Db → Option GameSession
lock_session session_id db = find? (λ s. s.id == session_id) db.sessions

unfoldable pub get_session_by_request : ℕ → Db → Option GameSession
get_session_by_request request_id db = find? (λ s. s.request_id == request_id) db.sessions

unfoldable pub put_session : GameSession → Db → Db
put_session s db = record db { sessions = replace (λ r. r.id) s db.sessions }

unfoldable pub lock_expired_active_sessions : ℕ → ℕ → ℕ → Db → List GameSession
lock_expired_active_sessions player_id game_id now db =
    select
      (λ s.
        s.player_id == player_id
        && s.game_id == game_id
        && is_active_session s.status
        && leb s.expires_at now)
      db.sessions

unfoldable pub latest_session : ℕ → ℕ → Db → Option GameSession
unfolding top
latest_session player_id game_id db =
    top (λ a b. ltb b.created_at a.created_at || a.created_at == b.created_at && ltb b.id a.id)
      (select (λ s. s.player_id == player_id && s.game_id == game_id) db.sessions)

-- The unique constraints that a new session meets: primary key, request, and one active session for
-- each player and game.
abbrev pub session_clashes : GameSession → GameSession → Bool
session_clashes new s =
    s.id == new.id
    || s.request_id == new.request_id
    || is_active_session s.status && s.player_id == new.player_id && s.game_id == new.game_id

unfoldable pub add_session : GameSession → Db → Result Error Db
add_session new db =
    if any (session_clashes new) db.sessions
    then err integrity_error
    else ok (record db { sessions = db.sessions ++ new ∷ [] })

unfoldable pub get_outcome_by_session : ℕ → Db → Option Outcome
get_outcome_by_session session_id db = find? (λ o. o.session_id == session_id) db.outcomes

unfoldable pub get_outcome : ℕ → Db → Option Outcome
get_outcome outcome_id db = find? (λ o. o.id == outcome_id) db.outcomes

abbrev pub new_outcome : ℕ → GameSession → Fields → Outcome
new_outcome id s result = record {
  id = id;
  session_id = s.id;
  player_id = s.player_id;
  game_id = s.game_id;
  config_version_id = s.config_version_id;
  status = OutcomeStatus.accepted;
  result = result;
}

unfoldable pub add_outcome : Outcome → Db → Result Error Db
add_outcome new db =
    if any (λ o. o.id == new.id || o.session_id == new.session_id) db.outcomes
    then err integrity_error
    else ok (record db { outcomes = db.outcomes ++ new ∷ [] })

-- Whether two optional keys are the same key; NULL equals nothing.
abbrev pub same_key : Option ℕ → Option ℕ → Bool
same_key (some a) (some b) = a == b
same_key _ _ = false

-- Its creation time is the one of the database, `server_default=func.now()`.
abbrev pub new_reward : ℕ → ℕ → Outcome → ℕ → ℕ → Reward
new_reward id created_at outcome player_id value = record {
  id = id;
  created_at = created_at;
  outcome_id = some outcome.id;
  settlement_recipient_id = none;
  player_id = player_id;
  status = RewardStatus.issued;
  value = value;
  claimed_at = none;
}

unfoldable pub add_reward : Reward → Db → Result Error Db
add_reward new db =
    if any (λ r. r.id == new.id || same_key r.outcome_id new.outcome_id) db.rewards
    then err integrity_error
    else ok (record db { rewards = db.rewards ++ new ∷ [] })

abbrev pub find_reward_of : Option Outcome → List Reward → Option Reward
find_reward_of none rewards = none
find_reward_of (some o) rewards = find? (λ r. same_key r.outcome_id (some o.id)) rewards

-- `lock_reward_by_session`, whose join has one row, since both keys are unique.
unfoldable pub lock_reward_by_session : ℕ → Db → Option Reward
lock_reward_by_session session_id db =
    find_reward_of (find? (λ o. o.session_id == session_id) db.outcomes) db.rewards

unfoldable pub put_reward : Reward → Db → Db
put_reward r db = record db { rewards = replace (λ x. x.id) r db.rewards }

unfoldable pub get_player : ℕ → Db → Option Player
get_player player_id db = find? (λ p. p.id == player_id) db.players

unfoldable pub get_game : Text → Db → Option Game
get_game game_key db = find? (λ g. g.key ==ˢ game_key) db.games

unfoldable pub get_game_by_id : ℕ → Db → Option Game
get_game_by_id game_id db = find? (λ g. g.id == game_id) db.games

unfoldable pub get_config_by_id : ℕ → Db → Option GameConfigVersion
get_config_by_id config_id db = find? (λ c. c.id == config_id) db.configs

unfoldable pub get_active_config : ℕ → Db → Option GameConfigVersion
unfolding top
get_active_config game_id db =
    top (λ a b. ltb b.version a.version)
      (select (λ c. c.game_id == game_id && is_published c.status) db.configs)

unfoldable pub lock_fairness_proof_by_session : ℕ → Db → Option FairnessProof
lock_fairness_proof_by_session session_id db = find? (λ p. p.session_id == session_id) db.proofs

unfoldable pub put_proof : FairnessProof → Db → Db
put_proof p db = record db { proofs = replace (λ r. r.id) p db.proofs }

unfoldable pub lock_latest_fairness_proof_event : ℕ → Db → Option FairnessProofEvent
unfolding top
lock_latest_fairness_proof_event proof_id db =
    top (λ a b. ltb b.sequence a.sequence) (select (λ e. e.proof_id == proof_id) db.proof_events)

unfoldable pub delete_fairness_seed_custody : ℕ → Db → Db
delete_fairness_seed_custody proof_id db = record db {
  custodies = select (λ c. not (c.proof_id == proof_id)) db.custodies;
}

unfoldable pub add_fairness_proof_event : FairnessProofEvent → Db → Result Error Db
add_fairness_proof_event new db =
    if any (λ e. e.proof_id == new.proof_id && e.sequence == new.sequence) db.proof_events
    then err integrity_error
    else ok (record db { proof_events = db.proof_events ++ new ∷ [] })
