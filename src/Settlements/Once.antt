-- ===== src/Settlements/Once.antt =====
-- `settle_leaderboard` of app/services/leaderboards.py: what it leaves, and that it settles once.
use python_rng_game_platform.Leaderboards.Derived.{as_ineligible-inv}
use python_rng_game_platform.GameRules.Registry.{
  RegisteredGame, settlement_rules_for, leaderboard_rules_for,
}
use mathlib.Core.Path.{subst}
use python_rng_game_platform.Base.{
  ℕ, ◌+◌, ◌≡◌, ◌⊎◌, refl, sym, ap, ◌∙◌, inl, inr, true, false, ◌&&◌, Bool-cases, Option,
  Option-cases, none, some, ok, Result-cases, ok_inj, arith, List, [], ◌∷◌, ◌==◌, find?, ltb, suc,
  ◌≤◌, Text, ◌%◌, ◌/◌, ==_iff,
}
use python_rng_game_platform.Models.Rows.{
  Game, FinalScore, RewardTier, SettlementRun, SettlementStatus,
}
use python_rng_game_platform.Store.{Db, committed, get_game, same_key}
use python_rng_game_platform.Store.Lookups.{find?-replace_where}
use python_rng_game_platform.Store.Evidence.{add_audit}
use python_rng_game_platform.Store.Leaderboards.{
  list_settlement_scores, settlement_run, put_settlement_run, settlement_recipients,
  settlement_reward, period_scores,
}
use python_rng_game_platform.Leaderboards.{
  week, eligible_leaderboard_game, eligible_settlement_game, as_ineligible, weekday, day,
}
use python_rng_game_platform.Settlements.{
  SettleCall, Opened, open_run, Settled, completed_run, close_run, settle_opened, settle_run,
  is_completed_run, settle_game, settlement_game, settle_leaderboard, starts_week,
}
use python_rng_game_platform.Settlements.Paid.{ArePaid, settle_scores-ArePaid}
use python_rng_game_platform.Settlements.Runs.{
  open_run-new, open_run-resumed, is_run, IsOpened, IsBegun,
}

ArePaid-ext :
    (run : SettlementRun) (tiers : List RewardTier) (rank : ℕ) (scores : List FinalScore) (a b : Db)
    → b.recipients ≡ a.recipients
    → b.rewards ≡ a.rewards
    → ArePaid run tiers rank scores a
    → ArePaid run tiers rank scores b
unfolding settlement_reward
ArePaid-ext run tiers rank [] a b same paid h = tt
ArePaid-ext run tiers rank (score ∷ scores) a b same paid (h, rest) = (
  λ held.
      let (recipient, entry, reward, given) = h held in
      (
        recipient,
        ap (find? (λ r. r.run_id == run.id && r.score_id == score.id)) same ∙ entry,
        reward,
        ap (find? (λ r. same_key r.settlement_recipient_id (some recipient.id))) paid ∙ given,
      ),
  ArePaid-ext run tiers (suc rank) scores a b same paid rest,
)

-- A period that was settled before.
abbrev pub IsSettledBefore : SettleCall → Game → Settled → Db → Db → Type 0
IsSettledBefore call game a db durable =
    (settlement_run game.id call.period_start db ≡ some a.run)
    × (is_completed_run (some a.run) ≡ true)
    × (a.recipients ≡ settlement_recipients a.run.id db)
    × (durable ≡ db)

-- A period that ended and is settled now: every best score whose rank a tier holds has a recipient with a
-- reward, and the run stands in the tables as completed.
abbrev pub IsSettledNow : SettleCall → Game → Settled → Db → Db → Type 0
IsSettledNow call game a db durable =
    (call.period_start + week ≤ call.now)
    × (run : SettlementRun) × (tiers : List RewardTier) × IsBegun call game run tiers db
    × (a.run ≡ record run { status = SettlementStatus.completed; completed_at = some call.now })
    × ArePaid run tiers 1 (list_settlement_scores game.id call.period_start db) durable
    × (settlement_run game.id call.period_start durable ≡ some a.run)
    × (a.recipients ≡ settlement_recipients a.run.id durable)
    × (durable.games ≡ db.games)

list_settlement_scores-ext :
    (game_id period_start : ℕ) (a b : Db)
    → a.scores ≡ b.scores
    → list_settlement_scores game_id period_start a ≡ list_settlement_scores game_id period_start b
unfolding list_settlement_scores period_scores
list_settlement_scores-ext game_id period_start a b same = rw same refl

settle_run-IsSettledNow :
    (call : SettleCall) (game : Game) (existing : Option SettlementRun) (db : Db) {a : Settled}
    → ((opened : Opened)
        → open_run call game existing db ≡ ok opened
        → IsOpened call game opened db)
    → ltb call.now (call.period_start + week) ≡ false
    → (settle_run call game existing db).result ≡ ok a
    → IsSettledNow call game a db (settle_run call game existing db).durable
unfolding settle_run settle_opened close_run put_settlement_run add_audit settlement_run
    settlement_recipients
settle_run-IsSettledNow call game existing db {a} opens ended e =
    elim (Result-cases (open_run call game existing db)) [
      | inr (x, failed) ↦ absurd (ground arith)
      | inl (opened, started) ↦ elim (Result-cases (settle_opened call game opened)) [
        | inr (x, failed) ↦ absurd (ground arith)
        | inl (work, looped) ↦
            let (found, own, games, scores, begun) = opens opened started in
            let (grown, paid) =
              settle_scores-ArePaid call opened.run game.key opened.tiers 1
                (list_settlement_scores game.id call.period_start opened.work) opened.work
                {work = work} looped in
            let done = close_run call game.key opened.run work in
            let answer : Settled = record {
              run = completed_run call.now opened.run;
              recipients = settlement_recipients opened.run.id work;
            } in
            let standing : find? (is_run game call) done.runs
                ≡ some (completed_run call.now opened.run) =
              find?-replace_where (λ (r : SettlementRun). r.id) (is_run game call)
                (completed_run call.now opened.run) work.runs {b = opened.run}
                (ap (find? (is_run game call)) grown.1 ∙ found) refl own in
            let listed =
              list_settlement_scores-ext game.id call.period_start opened.work db scores in
            let payed : ArePaid opened.run opened.tiers 1
                (list_settlement_scores game.id call.period_start db) done =
              ArePaid-ext opened.run opened.tiers 1
                (list_settlement_scores game.id call.period_start db) work done refl refl
                (subst (λ ss. ArePaid opened.run opened.tiers 1 ss work) listed paid) in
            let all : IsSettledNow call game answer db done = (
              ground arith,
              opened.run,
              opened.tiers,
              begun,
              refl,
              payed,
              standing,
              refl,
              grown.0 ∙ games,
            ) in
            let same : answer ≡ a = ground arith in
            rw (started, looped, settle_run)
              (subst (λ x. IsSettledNow call game x db done) same all)
      ]
    ]

abbrev pub SettleDone : SettleCall → Game → Settled → Db → Db → Type 0
SettleDone call game a db durable =
    IsSettledBefore call game a db durable ⊎ IsSettledNow call game a db durable

settle_game-done :
    (call : SettleCall) (game : Game) (db : Db) {a : Settled}
    → (settle_game call game db).result ≡ ok a
    → SettleDone call game a db (settle_game call game db).durable
unfolding settle_game
settle_game-done call game db {a} e =
    elim (Option-cases (settlement_run game.id call.period_start db)) [
      | inl without ↦ elim (Bool-cases (ltb call.now (call.period_start + week))) [
        | inl early ↦ absurd (ground arith)
        | inr ended ↦
            let step : settle_game call game db ≡ settle_run call game none db =
              rw (without, ended, settle_game) refl in
            inr (
              rw step (
                settle_run-IsSettledNow call game none db {a = a}
                  (λ opened started. open_run-new call game db {opened = opened} without started)
                  ended (rw step at e)))
      ]
      | inr (run, found) ↦ elim (Bool-cases (is_completed_run (some run))) [
        | inl over ↦
            let step : settle_game call game db
                ≡ committed (record { run = run; recipients = settlement_recipients run.id db })
                    db =
              rw (found, over, settle_game) refl in
            let same : record { run = run; recipients = settlement_recipients run.id db } ≡ a =
              ok_inj (rw step at e) in
            let before : IsSettledBefore call game
                (record { run = run; recipients = settlement_recipients run.id db }) db db =
              (found, over, refl, refl) in
            inl (rw step (subst (λ x. IsSettledBefore call game x db db) same before))
        | inr going ↦ elim (Bool-cases (ltb call.now (call.period_start + week))) [
          | inl early ↦ absurd (ground arith)
          | inr ended ↦
              let step : settle_game call game db ≡ settle_run call game (some run) db =
                rw (found, going, ended, settle_game) refl in
              inr (
                rw step (
                  settle_run-IsSettledNow call game (some run) db {a = a}
                    (λ opened started.
                      open_run-resumed call game run db {opened = opened} found started)
                    ended (rw step at e)))
        ]
      ]
    ]

abbrev SettledOn : SettleCall → Settled → Db → Db → Type 0
SettledOn call a db durable =
    (game : Game) × (settlement_game call db ≡ ok game) × SettleDone call game a db durable

settle_leaderboard-done :
    (call : SettleCall) (db : Db) {a : Settled}
    → (settle_leaderboard call db).result ≡ ok a
    → SettledOn call a db (settle_leaderboard call db).durable
unfolding settle_leaderboard
settle_leaderboard-done call db {a} e = elim (Result-cases (settlement_game call db)) [
  | inr (x, failed) ↦ absurd (ground arith)
  | inl (game, found) ↦
      let step : settle_leaderboard call db ≡ settle_game call game db =
        rw (found, settle_leaderboard) refl in
      (game, found, rw step (settle_game-done call game db {a = a} (rw step at e)))
]

-- A settlement that may be made: it is authorized, for a week of the calendar, and of an active game whose
-- boards are settled.
abbrev pub MaySettle : SettleCall → Game → Db → Type 0
MaySettle call game db =
    (call.authorized ≡ true)
    × (call.period_start % week ≡ 0)
    × (get_game call.game_key db ≡ some game)
    × (game.is_active ≡ true)
    × ((rules : RegisteredGame) × (settlement_rules_for game.key ≡ ok rules))

whole_week : (t : ℕ) → t / day % 7 ≡ 0 → t % day ≡ 0 → t % week ≡ 0
whole_week t d h = omega arith

monday-week : (t : ℕ) → starts_week t ≡ true → t % week ≡ 0
monday-week t e = elim (Bool-cases (weekday t == 0)) [
  | inr other ↦ absurd (ground arith)
  | inl monday ↦ elim (Bool-cases (t % day == 0)) [
    | inr other ↦ absurd (ground arith)
    | inl start ↦ whole_week t ((==_iff (weekday t) 0).0 monday) ((==_iff (t % day) 0).0 start)
  ]
]

eligible_leaderboard_game-inv :
    (key : Text) (db : Db) {game : Game}
    → eligible_leaderboard_game key db ≡ ok game
    → (get_game key db ≡ some game) × (game.is_active ≡ true)
unfolding eligible_leaderboard_game
eligible_leaderboard_game-inv key db {game} e = elim (Option-cases (get_game key db)) [
  | inl missing ↦ absurd (ground arith)
  | inr (g, found) ↦ elim (Bool-cases g.is_active) [
    | inr idle ↦ absurd (ground arith)
    | inl active ↦ elim (Result-cases (as_ineligible (leaderboard_rules_for g.key))) [
      | inr (x, failed) ↦ absurd (ground arith)
      | inl (rules, ruled) ↦
          let same : g ≡ game = ground arith in
          (found ∙ ap some same, ap (λ (x : Game). x.is_active) (sym same) ∙ active)
    ]
  ]
]

-- An active game whose boards are settled.
abbrev IsEligible : Text → Game → Db → Type 0
IsEligible key game db =
    (get_game key db ≡ some game)
    × (game.is_active ≡ true)
    × ((rules : RegisteredGame) × (settlement_rules_for game.key ≡ ok rules))

eligible_settlement_game-inv :
    (key : Text) (db : Db) {game : Game}
    → eligible_settlement_game key db ≡ ok game
    → IsEligible key game db
unfolding eligible_settlement_game
eligible_settlement_game-inv key db {game} e =
    elim (Result-cases (eligible_leaderboard_game key db)) [
      | inr (x, failed) ↦ absurd (ground arith)
      | inl (g, listed) ↦ elim (Result-cases (as_ineligible (settlement_rules_for g.key))) [
        | inr (x, failed) ↦ absurd (ground arith)
        | inl (rules, ruled) ↦
            let (found, active) = eligible_leaderboard_game-inv key db {game = g} listed in
            let made : IsEligible key g db =
              (found, active, (rules, as_ineligible-inv (settlement_rules_for g.key) ruled)) in
            let same : g ≡ game = ok_inj (rw (listed, ruled, eligible_settlement_game) at e) in
            subst (λ (x : Game). IsEligible key x db) same made
      ]
    ]

settlement_game-MaySettle :
    (call : SettleCall) (db : Db) {game : Game}
    → settlement_game call db ≡ ok game
    → MaySettle call game db
unfolding settlement_game
settlement_game-MaySettle call db {game} e = elim (Bool-cases call.authorized) [
  | inr denied ↦ absurd (ground arith)
  | inl may ↦ elim (Bool-cases (starts_week call.period_start)) [
    | inr other ↦ absurd (ground arith)
    | inl starts ↦
        let (found, active, settled) =
          eligible_settlement_game-inv call.game_key db {game = game}
            (rw (may, starts, settlement_game) at e) in
        (may, monday-week call.period_start starts, found, active, settled)
  ]
]

-- What a settlement that answers is.
abbrev pub IsSettled : SettleCall → Settled → Db → Db → Type 0
IsSettled call a db durable =
    (game : Game) × MaySettle call game db × SettleDone call game a db durable

-- A settlement that answers is authorized, for a week from Monday at midnight, and of an active game whose
-- boards are settled. Either the period was settled before: its run and recipients are answered and nothing
-- changes; or the period has ended, and the run is the interrupted one with the tiers that it recorded, or a
-- new one that records the tiers of the configuration in force. Then each best score whose rank a tier of the
-- run holds has a recipient with a reward, and the run stands completed and is answered.
pub settle_leaderboard_pays :
    (call : SettleCall) (db : Db) {a : Settled}
    → (settle_leaderboard call db).result ≡ ok a
    → IsSettled call a db (settle_leaderboard call db).durable
settle_leaderboard_pays call db {a} e =
    let (game, found, done) = settle_leaderboard-done call db {a = a} e in
    (game, settlement_game-MaySettle call db {game = game} found, done)

settlement_game-ext :
    (call again : SettleCall) (a b : Db)
    → again.game_key ≡ call.game_key
    → again.period_start ≡ call.period_start
    → again.authorized ≡ call.authorized
    → b.games ≡ a.games
    → settlement_game again b ≡ settlement_game call a
unfolding settlement_game eligible_settlement_game eligible_leaderboard_game get_game
settlement_game-ext call again a b key start may same = rw (key, start, may, same) refl

settled-again :
    (call : SettleCall) (game : Game) (a : Settled) (db : Db)
    → settlement_game call db ≡ ok game
    → settlement_run game.id call.period_start db ≡ some a.run
    → is_completed_run (some a.run) ≡ true
    → a.recipients ≡ settlement_recipients a.run.id db
    → settle_leaderboard call db ≡ committed a db
unfolding settle_leaderboard settle_game
settled-again call game a db found run over recipients =
    rw (found, run, over, settle_leaderboard, settle_game)
      (ap (λ rs. committed (record { run = a.run; recipients = rs }) db) (sym recipients))

-- A settlement repeated for the same game and period with the same authorization, at any time and whatever
-- keys are drawn, answers the same run and recipients, and changes nothing: no reward is issued twice.
pub settle_leaderboard_once :
    (call again : SettleCall) (db : Db) {a : Settled}
    → (settle_leaderboard call db).result ≡ ok a
    → again.game_key ≡ call.game_key
    → again.period_start ≡ call.period_start
    → again.authorized ≡ call.authorized
    → let after = (settle_leaderboard call db).durable in
      settle_leaderboard again after ≡ committed a after
settle_leaderboard_once call again db {a} e key start may =
    let after = (settle_leaderboard call db).durable in
    let (game, found, done) = settle_leaderboard-done call db {a = a} e in
    elim done [
      | inl (run, over, recipients, kept) ↦ rw kept (
          settled-again again game a db
            (settlement_game-ext call again db db key start may refl ∙ found)
            (ap (λ t. settlement_run game.id t db) start ∙ run) over recipients)
      | inr (ended, begun_run, tiers, begun, closed, paid, run, recipients, games) ↦
          settled-again again game a after
            (settlement_game-ext call again db after key start may games ∙ found)
            (ap (λ t. settlement_run game.id t after) start ∙ run)
            (ap (λ (r : SettlementRun). is_completed_run (some r)) closed) recipients
    ]
