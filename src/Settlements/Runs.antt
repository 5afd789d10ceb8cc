-- ===== src/Settlements/Runs.antt =====
-- The run that `settle_leaderboard` of app/services/leaderboards.py opens or resumes.
use mathlib.Core.Path.{subst}
use python_rng_game_platform.Base.{
  ◌+◌, ◌≡◌, refl, ap, ◌∙◌, Bool, true, ◌&&◌, none, some, ok, Result, >>=-eq-ok, ok_inj, arith, List,
  [], ◌∷◌, ◌++◌, ◌==◌, ==_refl, find?, ◌>>=◌, ◌⊎◌, inl, inr,
}
use python_rng_game_platform.Models.Errors.{not_found, invalid_play}
use python_rng_game_platform.Models.Rows.{Game, RewardTier, RewardTierConfig, SettlementRun}
use python_rng_game_platform.Store.{Db}
use python_rng_game_platform.Store.Lookups.{find?-test, find?-append_new}
use python_rng_game_platform.Store.Leaderboards.{
  settlement_tier_config, settlement_run, add_settlement_run,
}
use python_rng_game_platform.Fairness.Evaluate.{require, require-inv}
use python_rng_game_platform.Leaderboards.{week}
use python_rng_game_platform.Settlements.{SettleCall, Opened, new_run, open_run}

abbrev pub is_run : Game → SettleCall → SettlementRun → Bool
is_run game call r = r.game_id == game.id && r.period_start == call.period_start

-- A run with its tiers: the interrupted run of the period with the tiers that it recorded, or a new run that
-- records the tiers of the configuration in force when the period ends.
abbrev pub IsBegun : SettleCall → Game → SettlementRun → List RewardTier → Db → Type 0
IsBegun call game run tiers db =
    (run.tier_snapshot ≡ some tiers)
    × ((settlement_run game.id call.period_start db ≡ some run)
        ⊎ ((settlement_run game.id call.period_start db ≡ none)
            × (config : RewardTierConfig) × (settlement_tier_config game.id
                  (call.period_start + week) db
                ≡ some config)
            × (config.tiers ≡ some tiers)
            × (run.tier_config_id ≡ config.id)))

-- An opened run stands in the tables, which differ in their runs only.
abbrev pub IsOpened : SettleCall → Game → Opened → Db → Type 0
IsOpened call game opened db =
    (settlement_run game.id call.period_start opened.work ≡ some opened.run)
    × (is_run game call opened.run ≡ true)
    × (opened.work.games ≡ db.games)
    × (opened.work.scores ≡ db.scores)
    × IsBegun call game opened.run opened.tiers db

pub add_settlement_run-inv :
    (r : SettlementRun) (db : Db) {work : Db}
    → add_settlement_run r db ≡ ok work
    → work ≡ record db { runs = db.runs ++ r ∷ [] }
unfolding add_settlement_run
add_settlement_run-inv r db {work} e = ground arith

pub open_run-new :
    (call : SettleCall) (game : Game) (db : Db) {opened : Opened}
    → settlement_run game.id call.period_start db ≡ none
    → open_run call game none db ≡ ok opened
    → IsOpened call game opened db
unfolding open_run settlement_run
open_run-new call game db {opened} without e =
    let close = λ (config : RewardTierConfig) (tiers : List RewardTier).
      add_settlement_run (new_run call game config) db >>= λ work.
      Result.ok (record { run = new_run call game config; tiers = tiers; work = work }) in
    let (config, configured, e1) =
      >>=-eq-ok (require (settlement_tier_config game.id (call.period_start + week) db) not_found)
        (λ config. require config.tiers invalid_play >>= close config) e in
    let (tiers, listed, e2) = >>=-eq-ok (require config.tiers invalid_play) (close config) e1 in
    let (work, added, e3) =
      >>=-eq-ok (add_settlement_run (new_run call game config) db)
        (λ work. Result.ok (record { run = new_run call game config; tiers = tiers; work = work }))
        e2 in
    let shape = add_settlement_run-inv (new_run call game config) db {work = work} added in
    let held =
      require-inv (settlement_tier_config game.id (call.period_start + week) db) not_found
        configured in
    let named = require-inv config.tiers invalid_play listed in
    let own : is_run game call (new_run call game config) ≡ true =
      rw (==_refl game.id) (==_refl call.period_start) in
    let made : IsOpened call game
        (record { run = new_run call game config; tiers = tiers; work = work }) db =
      (
        ap (λ (x : Db). find? (is_run game call) x.runs) shape
            ∙ find?-append_new (is_run game call) db.runs {a = new_run call game config} without
                own,
        own,
        ap (λ (x : Db). x.games) shape,
        ap (λ (x : Db). x.scores) shape,
        (named, inr (without, config, held, named, refl)),
      ) in
    subst (λ (x : Opened). IsOpened call game x db) (ok_inj e3) made

pub open_run-resumed :
    (call : SettleCall) (game : Game) (run : SettlementRun) (db : Db) {opened : Opened}
    → settlement_run game.id call.period_start db ≡ some run
    → open_run call game (some run) db ≡ ok opened
    → IsOpened call game opened db
unfolding open_run settlement_run
open_run-resumed call game run db {opened} found e =
    let (tiers, listed, e1) =
      >>=-eq-ok (require run.tier_snapshot invalid_play)
        (λ tiers. Result.ok (record { run = run; tiers = tiers; work = db })) e in
    let made : IsOpened call game (record { run = run; tiers = tiers; work = db }) db = (
      found,
      find?-test (is_run game call) db.runs {a = run} found,
      refl,
      refl,
      (require-inv run.tier_snapshot invalid_play listed, inl found),
    ) in
    subst (λ (x : Opened). IsOpened call game x db) (ok_inj e1) made
