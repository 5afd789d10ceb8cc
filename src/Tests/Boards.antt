-- ===== src/Tests/Boards.antt =====
-- The theorems on app/services/leaderboards.py at tables that meet their hypotheses.
use mathlib.Core.List.{Perm}
use python_rng_game_platform.Base.{
  ℕ, ◌≡◌, refl, true, false, [], ◌∷◌, none, some, arith, codes, ok, ◌==ˢ◌, All, select, get_elem?,
  ◌%◌, ◌≤◌, ◌<◌, ◌+◌,
}
use python_rng_game_platform.Models.Rows.{FinalScore, SessionStatus, SettlementStatus}
use python_rng_game_platform.Models.Json.{get}
use python_rng_game_platform.Models.Schemas.{validate_payload, between, payload_fits}
use python_rng_game_platform.GameRules.{key_text, skill_value, validated_config}
use python_rng_game_platform.GameRules.Registry.{
  rules_for, game_key_of, registered, leaderboard_rules_for, settlement_rules_for,
  leaderboard_score,
}
use python_rng_game_platform.Rng.Encoding.{hex, hex_digit, uuid_str, dashed, group, to_bytes}
use python_rng_game_platform.Store.{
  Db, committed, replace, top, lock_session, get_player, get_game, get_game_by_id, get_config_by_id,
  get_outcome_by_session,
}
use python_rng_game_platform.Store.Evidence.{add_audit, add_event, add_reward_evidence}
use python_rng_game_platform.Store.Leaderboards.{
  ahead, in_period, insert_score, by_rank, Ranked, first_of, is_best, period_scores, behind,
  list_canonical_scores, list_settlement_scores, player_canonical_rank, get_final_score_by_session,
  add_final_score, add_final_score_evidence, settlement_tier_config, settlement_run,
  add_settlement_run, put_settlement_run, insert_recipient, recipients_by_rank,
  settlement_recipients, add_settlement_recipient, settlement_reward, add_settlement_reward,
}
use python_rng_game_platform.Sessions.{owned_session, ended}
use python_rng_game_platform.Leaderboards.{
  week, leaderboard_period, SubmitCall, Submitted, active_player, eligible_leaderboard_game,
  eligible_settlement_game, derive_score, record_score, submit_new, submit_owned,
  submit_final_score,
}
use python_rng_game_platform.Leaderboards.Weeks.{leaderboard_period-holds}
use python_rng_game_platform.Leaderboards.Order.{Distinct, IsRanked}
use python_rng_game_platform.Leaderboards.Paging.{
  board, cursor_of, list_canonical_scores-IsRanked, list_canonical_scores-cursor,
}
use python_rng_game_platform.Leaderboards.Best.{
  IsFirst, player_canonical_rank-IsFirst, DistinctPlayers, list_settlement_scores-DistinctPlayers,
}
use python_rng_game_platform.Leaderboards.Once.{
  IsSubmitted, submit_final_score_effect, submit_final_score_once,
}
use python_rng_game_platform.Settlements.{
  SettleCall, Settled, enter, issue, pay, settle_tier, settle_score, settle_scores, open_run,
  close_run, settle_opened, settle_run, settle_game, settlement_game, settle_leaderboard,
}
use python_rng_game_platform.Settlements.Once.{
  IsSettled, settle_leaderboard_pays, settle_leaderboard_once,
}
use python_rng_game_platform.Tests.{tables, active_session, answer}

leaderboard_period-holds_example :
    ((leaderboard_period 5).start % week ≡ 0)
    × ((leaderboard_period 5).start ≤ 5)
    × (5 < (leaderboard_period 5).end)
    × ((leaderboard_period 5).end ≡ (leaderboard_period 5).start + week)
    × ((u : ℕ)
        → (leaderboard_period 5).start ≤ u
        → u < (leaderboard_period 5).end
        → leaderboard_period u ≡ leaderboard_period 5)
leaderboard_period-holds_example = leaderboard_period-holds 5

abbrev score : ℕ → ℕ → ℕ → FinalScore
score id player_id value = record {
  id = id;
  player_id = player_id;
  game_id = 2;
  session_id = id;
  outcome_id = id;
  config_version_id = 3;
  period_start = 0;
  completed_at = 100;
  final_score = value;
}

abbrev scored : Db
scored = record (tables []) {
  scores = score 1 1 40 ∷ score 2 7 66 ∷ score 3 1 66 ∷ [];
  tier_configs =
      record {
        id = 8;
        game_id = 2;
        version = 1;
        tiers = some (
            record {
              min_rank = some 1;
              max_rank = some 1;
              key = some (codes "gold");
              reward_value = some 100;
            }
            ∷ []);
        published_at = 50;
      }
      ∷ [];
}

scored-Distinct : Distinct scored.scores
scored-Distinct = (
  ((λ e. absurd (omega arith)), ((λ e. absurd (omega arith)), tt)),
  (((λ e. absurd (omega arith)), tt), (tt, tt)),
)

list_canonical_scores-IsRanked_example :
    IsRanked (board 2 0 scored) × Perm (board 2 0 scored) (select (in_period 2 0) scored.scores)
list_canonical_scores-IsRanked_example = list_canonical_scores-IsRanked 2 0 scored scored-Distinct

second_found : get_elem? (board 2 0 scored) 1 ≡ some (score 3 1 66)
unfolding list_canonical_scores behind by_rank insert_score period_scores ahead
second_found = refl

list_canonical_scores-cursor_example :
    list_canonical_scores 2 0 (some 5) 0 (some (cursor_of (score 3 1 66))) scored
    ≡ list_canonical_scores 2 0 (some 5) 2 none scored
list_canonical_scores-cursor_example =
    list_canonical_scores-cursor 2 0 5 1 scored {c = score 3 1 66} scored-Distinct second_found

abbrev second : Ranked
second = record { score = score 3 1 66; rank = 2 }

ranked_second : player_canonical_rank 1 2 0 scored ≡ some second
unfolding player_canonical_rank first_of by_rank insert_score period_scores ahead
ranked_second = refl

player_canonical_rank-IsFirst_example : IsFirst 1 1 (board 2 0 scored) second
player_canonical_rank-IsFirst_example =
    player_canonical_rank-IsFirst 1 2 0 scored {r = second} scored-Distinct ranked_second

list_settlement_scores-DistinctPlayers_example :
    DistinctPlayers (list_settlement_scores 2 0 scored)
    × IsRanked (list_settlement_scores 2 0 scored)
    × All
        (λ t.
          All
            (λ s. s.player_id ≡ t.player_id → ahead s t ≡ false)
            (select (in_period 2 0) scored.scores))
        (list_settlement_scores 2 0 scored)
list_settlement_scores-DistinctPlayers_example =
    list_settlement_scores-DistinctPlayers 2 0 scored scored-Distinct

abbrev played : Db
played = record (tables (ended SessionStatus.completed 3000 active_session ∷ [])) {
  outcomes = answer ∷ [];
}

abbrev submit_call : ℕ → SubmitCall
submit_call score_id = record { session_id = 9; owner_id = 1; now = 4000; score_id = score_id }

abbrev submitted : Submitted
submitted = record {
  score = record {
    id = 10;
    player_id = 1;
    game_id = 2;
    session_id = 9;
    outcome_id = 5;
    config_version_id = 3;
    period_start = 0;
    completed_at = 3000;
    final_score = 66;
  };
  is_new = true;
  game_key = codes "skill_check";
}

submit_run : (submit_final_score (submit_call 10) played).result ≡ ok submitted
unfolding submit_final_score submit_owned submit_new derive_score record_score owned_session
    lock_session get_final_score_by_session active_player get_player get_game_by_id
    leaderboard_rules_for rules_for game_key_of registered key_text ◌==ˢ◌ get_outcome_by_session
    get_config_by_id leaderboard_score skill_value validated_config validate_payload between
    payload_fits get leaderboard_period add_final_score add_final_score_evidence add_audit add_event
    uuid_str dashed group hex hex_digit to_bytes
submit_run = refl

submit_final_score_effect_example :
    IsSubmitted
      (submit_call 10)
      submitted
      played
      (submit_final_score (submit_call 10) played).durable
submit_final_score_effect_example =
    submit_final_score_effect (submit_call 10) played {a = submitted} submit_run

submit_final_score_once_example :
    submit_final_score (submit_call 11) (submit_final_score (submit_call 10) played).durable
    ≡ committed
        (record submitted { is_new = false })
        (submit_final_score (submit_call 10) played).durable
submit_final_score_once_example =
    submit_final_score_once (submit_call 10) (submit_call 11) played {a = submitted} submit_run refl
      refl

abbrev settle_call : ℕ → SettleCall
settle_call now = record {
  game_key = codes "skill_check";
  period_start = 0;
  authorized = true;
  now = now;
  run_id = 20;
  recipient_id = λ rank. 30 + rank;
  reward_id = λ rank. 40 + rank;
  created_at = now;
}

abbrev settled : Settled
settled = record {
  run = record {
    id = 20;
    game_id = 2;
    period_start = 0;
    period_end = week;
    tier_config_id = 8;
    tier_snapshot = some (
        record {
          min_rank = some 1;
          max_rank = some 1;
          key = some (codes "gold");
          reward_value = some 100;
        }
        ∷ []);
    status = SettlementStatus.completed;
    completed_at = some week;
  };
  recipients =
      record {
        id = 31;
        run_id = 20;
        player_id = 7;
        score_id = 2;
        game_id = 2;
        period_start = 0;
        rank = 1;
        tier_key = codes "gold";
        reward_value = 100;
      }
      ∷ [];
}

settle_ran : (settle_leaderboard (settle_call week) scored).result ≡ ok settled
unfolding settle_leaderboard settlement_game settle_game settle_run open_run settle_opened
    settle_scores settle_score settle_tier enter pay issue close_run eligible_settlement_game
    eligible_leaderboard_game get_game leaderboard_rules_for settlement_rules_for rules_for
    game_key_of registered key_text ◌==ˢ◌ settlement_run settlement_tier_config top
    add_settlement_run list_settlement_scores is_best by_rank insert_score period_scores ahead
    add_settlement_recipient settlement_reward add_settlement_reward add_reward_evidence add_audit
    add_event settlement_recipients recipients_by_rank insert_recipient put_settlement_run replace
    uuid_str dashed group hex hex_digit to_bytes
settle_ran = refl

settle_leaderboard_pays_example :
    IsSettled
      (settle_call week)
      settled
      scored
      (settle_leaderboard (settle_call week) scored).durable
settle_leaderboard_pays_example =
    settle_leaderboard_pays (settle_call week) scored {a = settled} settle_ran

settle_leaderboard_once_example :
    settle_leaderboard (settle_call 0) (settle_leaderboard (settle_call week) scored).durable
    ≡ committed settled (settle_leaderboard (settle_call week) scored).durable
settle_leaderboard_once_example =
    settle_leaderboard_once (settle_call week) (settle_call 0) scored {a = settled} settle_ran refl
      refl refl
