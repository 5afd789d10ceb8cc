-- ===== src/Settlements.antt =====
-- `settle_leaderboard` of app/services/leaderboards.py.
pub mod Paid
pub mod Runs
pub mod Once
use python_rng_game_platform.Base.{
  ℕ, suc, ◌+◌, ◌%◌, Bool, true, false, not, ◌&&◌, ◌||◌, List, [], ◌∷◌, Option, none, some, leb, ltb,
  ◌==◌, if◌then◌else◌, Text, codes, length, find?, Result, ok, err, raise_if, ◌>>=◌, ◌>>◌,
}
use python_rng_game_platform.Models.Errors.{
  Error, not_found, invalid_play, settlement_forbidden, leaderboard_period_open,
}
use python_rng_game_platform.Models.Json.{text, number, instant, end, field}
use python_rng_game_platform.Models.Rows.{
  Game, FinalScore, Reward, RewardTier, RewardTierConfig, SettlementStatus, SettlementRun,
  SettlementRecipient, AuditRecord,
}
use python_rng_game_platform.Store.{Db, Reply, rolled_back, committed}
use python_rng_game_platform.Store.Evidence.{uuid_json, add_audit, add_reward_evidence}
use python_rng_game_platform.Store.Leaderboards.{
  list_settlement_scores, settlement_tier_config, settlement_run, add_settlement_run,
  put_settlement_run, settlement_recipients, add_settlement_recipient, settlement_reward,
  new_settlement_reward, add_settlement_reward,
}
use python_rng_game_platform.Fairness.Evaluate.{require}
use python_rng_game_platform.Leaderboards.{day, week, weekday, eligible_settlement_game}

-- The request, the clock, and the keys that the new rows are given: one run, and for each rank one
-- recipient and one reward.
pub record SettleCall : Type 0 where
  pub game_key : Text
  pub period_start : ℕ
  pub authorized : Bool
  pub now : ℕ
  pub run_id : ℕ
  pub recipient_id : ℕ → ℕ
  pub reward_id : ℕ → ℕ
  pub created_at : ℕ

-- A Monday at midnight.
abbrev pub starts_week : ℕ → Bool
starts_week t = weekday t == 0 && t % day == 0

abbrev pub tier_holds : ℕ → RewardTier → Bool
tier_holds rank tier = elim tier.min_rank [
  | none ↦ false
  | some lo ↦ elim tier.max_rank [ none ↦ false | some hi ↦ leb lo rank && leb rank hi ]
]

-- The key and the value of a tier.
pub record Award : Type 0 where
  pub tier_key : Text
  pub reward_value : ℕ

abbrev pub award_of : Option Text → Option ℕ → Result Error Award
award_of (some key) (some value) = ok (record { tier_key = key; reward_value = value })
award_of _ _ = err invalid_play

-- A recipient with the tables that hold it.
pub record Entered : Type 0 where
  pub recipient : SettlementRecipient
  pub work : Db

abbrev pub new_recipient : SettleCall → SettlementRun → ℕ → FinalScore → Award → SettlementRecipient
new_recipient call run rank score award = record {
  id = call.recipient_id rank;
  run_id = run.id;
  player_id = score.player_id;
  score_id = score.id;
  game_id = score.game_id;
  period_start = score.period_start;
  rank = rank;
  tier_key = award.tier_key;
  reward_value = award.reward_value;
}

abbrev pub recipient_of : SettlementRun → FinalScore → Db → Option SettlementRecipient
recipient_of run score db = find? (λ r. r.run_id == run.id && r.score_id == score.id) db.recipients

abbrev pub entered : SettlementRecipient → Result Error Db → Result Error Entered
entered recipient (err e) = err e
entered recipient (ok work) = ok (record { recipient = recipient; work = work })

-- `recipients_by_score`, extended when the score has no recipient yet.
unfoldable pub enter :
    SettleCall → SettlementRun → ℕ → FinalScore → Award → Db → Result Error Entered
enter call run rank score award db = elim (recipient_of run score db) [
  | some recipient ↦ ok (record { recipient = recipient; work = db })
  | none ↦
      let new = new_recipient call run rank score award in
      entered new (add_settlement_recipient new db)
]

unfoldable pub issue : SettleCall → Text → ℕ → Entered → Result Error Db
issue call game_key rank at = do
  let reward = new_settlement_reward (call.reward_id rank) call.created_at at.recipient
  work ← add_settlement_reward reward at.work
  add_reward_evidence (codes "settlement_reward_issued") reward game_key work

-- The reward of a recipient, issued unless it was before.
unfoldable pub pay : SettleCall → Text → ℕ → Entered → Result Error Db
unfolding issue
pay call game_key rank at = elim (settlement_reward at.recipient.id at.work) [
  | some reward ↦ ok at.work
  | none ↦ issue call game_key rank at
]

unfoldable pub settle_tier :
    SettleCall → SettlementRun → Text → RewardTier → ℕ → FinalScore → Db → Result Error Db
unfolding enter pay
settle_tier call run game_key tier rank score db = do
  award ← award_of tier.key tier.reward_value
  at ← enter call run rank score award db
  pay call game_key rank at

-- One round of the loop; a rank without a tier is passed over.
unfoldable pub settle_score :
    SettleCall → SettlementRun → Text → List RewardTier → ℕ → FinalScore → Db → Result Error Db
unfolding settle_tier
settle_score call run game_key tiers rank score db = elim (find? (tier_holds rank) tiers) [
  | none ↦ ok db
  | some tier ↦ settle_tier call run game_key tier rank score db
]

-- The loop from `rank`.
unfoldable pub settle_scores :
    SettleCall → SettlementRun → Text → List RewardTier → ℕ → List FinalScore → Db → Result Error Db
unfolding settle_score
settle_scores call run game_key tiers rank [] db = ok db
settle_scores call run game_key tiers rank (score ∷ scores) db = do
  work ← settle_score call run game_key tiers rank score db
  settle_scores call run game_key tiers (suc rank) scores work

-- A run that is under way, with its tiers.
pub record Opened : Type 0 where
  pub run : SettlementRun
  pub tiers : List RewardTier
  pub work : Db

abbrev pub new_run : SettleCall → Game → RewardTierConfig → SettlementRun
new_run call game config = record {
  id = call.run_id;
  game_id = game.id;
  period_start = call.period_start;
  period_end = call.period_start + week;
  tier_config_id = config.id;
  tier_snapshot = config.tiers;
  status = SettlementStatus.processing;
  completed_at = none;
}

-- A run that was interrupted goes on with the tiers that it recorded.
unfoldable pub open_run : SettleCall → Game → Option SettlementRun → Db → Result Error Opened
open_run call game none db = do
  config ← require (settlement_tier_config game.id (call.period_start + week) db) not_found
  tiers ← require config.tiers invalid_play
  work ← add_settlement_run (new_run call game config) db
  ok (record { run = new_run call game config; tiers = tiers; work = work })
open_run call game (some run) db = do
  tiers ← require run.tier_snapshot invalid_play
  ok (record { run = run; tiers = tiers; work = db })

-- What a settlement answers.
pub record Settled : Type 0 where
  pub run : SettlementRun
  pub recipients : List SettlementRecipient

abbrev pub completed_run : ℕ → SettlementRun → SettlementRun
completed_run now run = record run { status = SettlementStatus.completed; completed_at = some now }

abbrev pub settled_audit : SettleCall → Text → SettlementRun → ℕ → AuditRecord
settled_audit call game_key run count = record {
  event_type = codes "leaderboard_settled";
  entity_type = codes "settlement_run";
  entity_id = run.id;
  evidence = field (codes "game_key") (text game_key) (
      field (codes "period_start") (instant call.period_start) (
        field (codes "period_end") (instant (call.period_start + week)) (
          field (codes "tier_config_id") (uuid_json run.tier_config_id)
            (field (codes "recipient_count") (number count) end))));
}

-- The completed run in the tables, and its audit record.
unfoldable pub close_run : SettleCall → Text → SettlementRun → Db → Db
unfolding add_audit
close_run call game_key run db =
    add_audit (settled_audit call game_key run (length (settlement_recipients run.id db)))
      (put_settlement_run (completed_run call.now run) db)

-- The loop over the ranked scores of an opened run.
unfoldable pub settle_opened : SettleCall → Game → Opened → Result Error Db
unfolding settle_scores
settle_opened call game opened =
    settle_scores call opened.run game.key opened.tiers 1
      (list_settlement_scores game.id call.period_start opened.work) opened.work

unfoldable pub settle_run : SettleCall → Game → Option SettlementRun → Db → Reply Settled
unfolding open_run settle_opened close_run
settle_run call game existing db = elim (open_run call game existing db) [
  | err e ↦ rolled_back e db
  | ok opened ↦ elim (settle_opened call game opened) [
    | err e ↦ rolled_back e db
    | ok work ↦
        committed
          (record {
            run = completed_run call.now opened.run;
            recipients = settlement_recipients opened.run.id work;
          })
          (close_run call game.key opened.run work)
  ]
]

abbrev pub is_completed_run : Option SettlementRun → Bool
is_completed_run none = false
is_completed_run (some run) = elim run.status [
  | SettlementStatus.completed ↦ true
  | SettlementStatus.processing ↦ false
]

-- A period that is settled is answered again, also while it is open; any other must have ended.
unfoldable pub settle_game : SettleCall → Game → Db → Reply Settled
unfolding settle_run
settle_game call game db = elim (settlement_run game.id call.period_start db) [
  | some run ↦
      if is_completed_run (some run)
      then committed (record { run = run; recipients = settlement_recipients run.id db }) db
      else if ltb call.now (call.period_start + week)
      then rolled_back leaderboard_period_open db
      else settle_run call game (some run) db
  | none ↦
      if ltb call.now (call.period_start + week)
      then rolled_back leaderboard_period_open db
      else settle_run call game none db
]

unfoldable pub settlement_game : SettleCall → Db → Result Error Game
settlement_game call db = do
  raise_if (not call.authorized) settlement_forbidden
  raise_if (not (starts_week call.period_start)) invalid_play
  eligible_settlement_game call.game_key db

unfoldable pub settle_leaderboard : SettleCall → Db → Reply Settled
unfolding settlement_game settle_game
settle_leaderboard call db = elim (settlement_game call db) [
  | err e ↦ rolled_back e db
  | ok game ↦ settle_game call game db
]
