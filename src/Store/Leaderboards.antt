-- ===== src/Store/Leaderboards.antt =====
-- app/persistence/leaderboards.py and settlements.py: the queries on scores, ranks and settlements.
use python_rng_game_platform.Base.{
  ℕ, suc, ◌+◌, Bool, not, ◌&&◌, ◌||◌, List, [], ◌∷◌, ◌++◌, Option, none, some, leb, ltb, ◌==◌,
  if◌then◌else◌, Text, codes, length, take, drop, find?, any, select, Result, ok, err,
}
use python_rng_game_platform.Models.Errors.{Error, integrity_error}
use python_rng_game_platform.Models.Json.{text, number, instant, Fields, end, field}
use python_rng_game_platform.Models.Rows.{
  FinalScore, LeaderboardProjectionRevision, RewardTierConfig, SettlementRun, SettlementRecipient,
  Reward, RewardStatus, AuditRecord, AnalyticsEvent,
}
use python_rng_game_platform.Rng.Encoding.{uuid_str}
use python_rng_game_platform.Store.{Db, replace, top, same_key}
use python_rng_game_platform.Store.Evidence.{uuid_json, add_audit, add_event}

unfoldable pub get_final_score_by_session : ℕ → Db → Option FinalScore
get_final_score_by_session session_id db = find? (λ s. s.session_id == session_id) db.scores

abbrev pub in_period : ℕ → ℕ → FinalScore → Bool
in_period game_id period_start s = s.game_id == game_id && s.period_start == period_start

-- `advance_leaderboard_projection_revision`, the trigger of the score table.
unfoldable pub advance_revision :
    ℕ → ℕ → List LeaderboardProjectionRevision → List LeaderboardProjectionRevision
advance_revision game_id period_start [] =
    record { game_id = game_id; period_start = period_start; revision = 1 } ∷ []
advance_revision game_id period_start (r ∷ rs) =
    let rest = advance_revision game_id period_start rs in
    if r.game_id == game_id && r.period_start == period_start
    then record r { revision = r.revision + 1 } ∷ rs
    else r ∷ rest

-- The unique session, the bound on the score, and the trigger.
unfoldable pub add_final_score : FinalScore → Db → Result Error Db
unfolding advance_revision
add_final_score new db =
    if any (λ s. s.id == new.id || s.session_id == new.session_id) db.scores
      || ltb 1000000 new.final_score
    then err integrity_error
    else ok (record db {
      scores = db.scores ++ new ∷ [];
      revisions = advance_revision new.game_id new.period_start db.revisions;
    })

abbrev pub final_score_evidence : FinalScore → Text → Fields
final_score_evidence s game_key = field (codes "score_id") (uuid_json s.id) (
    field (codes "session_id") (uuid_json s.session_id) (
      field (codes "outcome_id") (uuid_json s.outcome_id) (
        field (codes "player_id") (uuid_json s.player_id) (
          field (codes "game_key") (text game_key) (
            field (codes "config_version_id") (uuid_json s.config_version_id) (
              field (codes "period_start") (instant s.period_start) (
                field (codes "completed_at") (instant s.completed_at)
                  (field (codes "final_score") (number s.final_score) end))))))))

abbrev pub final_score_audit : FinalScore → Text → AuditRecord
final_score_audit s game_key = record {
  event_type = codes "final_score_submitted";
  entity_type = codes "final_score";
  entity_id = s.id;
  evidence = final_score_evidence s game_key;
}

abbrev pub final_score_event : FinalScore → Text → AnalyticsEvent
final_score_event s game_key = record {
  event_key = codes "final_score_submitted:" ++ uuid_str s.id;
  event_type = codes "final_score_submitted";
  player_id = s.player_id;
  payload = final_score_evidence s game_key;
}

unfoldable pub add_final_score_evidence : FinalScore → Text → Db → Result Error Db
unfolding add_audit add_event
add_final_score_evidence s game_key db =
    add_event (final_score_event s game_key) (add_audit (final_score_audit s game_key) db)

-- `_ranking_order`: a higher score first, then an earlier completion, then the lesser session.
unfoldable pub ahead : FinalScore → FinalScore → Bool
ahead a b =
    ltb b.final_score a.final_score
    || a.final_score == b.final_score
      && (ltb a.completed_at b.completed_at
          || a.completed_at == b.completed_at && ltb a.session_id b.session_id)

-- ORDER BY `_ranking_order`
unfoldable pub insert_score : FinalScore → List FinalScore → List FinalScore
unfolding ahead
insert_score s [] = s ∷ []
insert_score s (x ∷ xs) = let rest = insert_score s xs in if ahead s x then s ∷ x ∷ xs else x ∷ rest

unfoldable pub by_rank : List FinalScore → List FinalScore
unfolding insert_score
by_rank [] = []
by_rank (s ∷ ss) = insert_score s (by_rank ss)

-- A page's position: the score, the completion and the session behind which it starts.
pub record Cursor : Type 0 where
  pub final_score : ℕ
  pub completed_at : ℕ
  pub session_id : ℕ

-- The condition on the rows of a page with a cursor.
unfoldable pub is_behind : Cursor → FinalScore → Bool
is_behind c s =
    ltb s.final_score c.final_score
    || s.final_score == c.final_score && ltb c.completed_at s.completed_at
    || s.final_score == c.final_score
      && s.completed_at == c.completed_at
      && ltb c.session_id s.session_id

unfoldable pub behind : Option Cursor → List FinalScore → List FinalScore
unfolding is_behind
behind none ss = ss
behind (some c) ss = select (is_behind c) ss

abbrev pub limited : Option ℕ → List FinalScore → List FinalScore
limited none ss = ss
limited (some n) ss = take n ss

unfoldable pub period_scores : ℕ → ℕ → Db → List FinalScore
period_scores game_id period_start db = select (in_period game_id period_start) db.scores

unfoldable pub list_canonical_scores : ℕ → ℕ → Option ℕ → ℕ → Option Cursor → Db → List FinalScore
unfolding behind by_rank period_scores
list_canonical_scores game_id period_start limit offset after db =
    limited limit (drop offset (by_rank (behind after (period_scores game_id period_start db))))

-- `row_number() = 1` in the partition of the row's player: no other row of it is ahead.
unfoldable pub is_best : List FinalScore → FinalScore → Bool
unfolding ahead
is_best rows s = not (any (λ t. t.player_id == s.player_id && ahead t s) rows)

unfoldable pub list_settlement_scores : ℕ → ℕ → Db → List FinalScore
unfolding is_best by_rank period_scores
list_settlement_scores game_id period_start db =
    let rows = period_scores game_id period_start db in by_rank (select (is_best rows) rows)

unfoldable pub count_canonical_scores : ℕ → ℕ → Db → ℕ
unfolding period_scores
count_canonical_scores game_id period_start db = length (period_scores game_id period_start db)

abbrev pub revision_of : Option LeaderboardProjectionRevision → ℕ
revision_of none = 0
revision_of (some r) = r.revision

unfoldable pub leaderboard_projection_revision : ℕ → ℕ → Db → ℕ
leaderboard_projection_revision game_id period_start db =
    revision_of (find? (λ r. r.game_id == game_id && r.period_start == period_start) db.revisions)

-- A score with its rank.
pub record Ranked : Type 0 where
  pub score : FinalScore
  pub rank : ℕ

-- The first of a player's rows, numbered from `rank`.
unfoldable pub first_of : ℕ → ℕ → List FinalScore → Option Ranked
first_of player_id rank [] = none
first_of player_id rank (s ∷ ss) =
    let rest = first_of player_id (suc rank) ss in
    if s.player_id == player_id then some (record { score = s; rank = rank }) else rest

unfoldable pub player_canonical_rank : ℕ → ℕ → ℕ → Db → Option Ranked
unfolding first_of by_rank period_scores
player_canonical_rank player_id game_id period_start db =
    first_of player_id 1 (by_rank (period_scores game_id period_start db))

unfoldable pub settlement_tier_config : ℕ → ℕ → Db → Option RewardTierConfig
unfolding top
settlement_tier_config game_id period_end db =
    top (λ a b. ltb b.version a.version)
      (select (λ c. c.game_id == game_id && leb c.published_at period_end) db.tier_configs)

unfoldable pub settlement_run : ℕ → ℕ → Db → Option SettlementRun
settlement_run game_id period_start db =
    find? (λ r. r.game_id == game_id && r.period_start == period_start) db.runs

unfoldable pub add_settlement_run : SettlementRun → Db → Result Error Db
add_settlement_run new db =
    if any (λ r. r.id == new.id || r.game_id == new.game_id && r.period_start == new.period_start)
      db.runs
    then err integrity_error
    else ok (record db { runs = db.runs ++ new ∷ [] })

unfoldable pub put_settlement_run : SettlementRun → Db → Db
put_settlement_run r db = record db { runs = replace (λ x. x.id) r db.runs }

-- ORDER BY rank
unfoldable pub insert_recipient :
    SettlementRecipient → List SettlementRecipient → List SettlementRecipient
insert_recipient r [] = r ∷ []
insert_recipient r (x ∷ xs) =
    let rest = insert_recipient r xs in if leb r.rank x.rank then r ∷ x ∷ xs else x ∷ rest

unfoldable pub recipients_by_rank : List SettlementRecipient → List SettlementRecipient
unfolding insert_recipient
recipients_by_rank [] = []
recipients_by_rank (r ∷ rs) = insert_recipient r (recipients_by_rank rs)

unfoldable pub settlement_recipients : ℕ → Db → List SettlementRecipient
unfolding recipients_by_rank
settlement_recipients run_id db =
    recipients_by_rank (select (λ r. r.run_id == run_id) db.recipients)

-- The primary key, and one recipient for each player and each rank of a run.
unfoldable pub add_settlement_recipient : SettlementRecipient → Db → Result Error Db
add_settlement_recipient new db =
    if any
      (λ r.
        r.id == new.id
        || r.run_id == new.run_id && (r.player_id == new.player_id || r.rank == new.rank))
      db.recipients
    then err integrity_error
    else ok (record db { recipients = db.recipients ++ new ∷ [] })

unfoldable pub settlement_reward : ℕ → Db → Option Reward
settlement_reward recipient_id db =
    find? (λ r. same_key r.settlement_recipient_id (some recipient_id)) db.rewards

-- Created at the time of the database, too.
abbrev pub new_settlement_reward : ℕ → ℕ → SettlementRecipient → Reward
new_settlement_reward id created_at recipient = record {
  id = id;
  created_at = created_at;
  outcome_id = none;
  settlement_recipient_id = some recipient.id;
  player_id = recipient.player_id;
  status = RewardStatus.issued;
  value = recipient.reward_value;
  claimed_at = none;
}

unfoldable pub add_settlement_reward : Reward → Db → Result Error Db
add_settlement_reward new db =
    if any (λ r. r.id == new.id || same_key r.settlement_recipient_id new.settlement_recipient_id)
      db.rewards
    then err integrity_error
    else ok (record db { rewards = db.rewards ++ new ∷ [] })
