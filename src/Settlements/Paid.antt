-- ===== src/Settlements/Paid.antt =====
-- The loop of `settle_leaderboard` in app/services/leaderboards.py: who is paid, and what it leaves alone.
use mathlib.Core.Path.{subst}
use python_rng_game_platform.Base.{
  ℕ, suc, ◌≡◌, ◌≢◌, refl, sym, ap, ◌∙◌, inl, inr, true, ◌&&◌, Option-cases, none, some, ok, err,
  Result, >>=-eq-ok, ok_inj, arith, List, [], ◌∷◌, ◌++◌, ◌==◌, ==_refl, find?, Text, append_assoc,
  append-nil, ◌>>=◌, false, ◌≤◌, Bool-cases, ◌⊎◌,
}
use python_rng_game_platform.Models.Errors.{Error}
use python_rng_game_platform.Models.Rows.{
  FinalScore, Reward, RewardTier, SettlementRun, SettlementRecipient,
}
use python_rng_game_platform.Store.{Db, same_key}
use python_rng_game_platform.Store.Lookups.{find?-append_new, find?-append_found}
use python_rng_game_platform.Store.Evidence.{add_audit, add_event, add_reward_evidence}
use python_rng_game_platform.Store.Leaderboards.{
  add_settlement_recipient, settlement_reward, new_settlement_reward, add_settlement_reward,
}
use python_rng_game_platform.Settlements.{
  SettleCall, tier_holds, Award, award_of, Entered, entered, new_recipient, recipient_of, enter,
  issue, pay, settle_tier, settle_score, settle_scores,
}

false-true : false ≢ true
false-true e = cc

-- The tables grow by recipients and rewards; the games, the runs and the scores stay.
abbrev pub Grows : Db → Db → Type 0
Grows db work =
    (work.games ≡ db.games)
    × (work.runs ≡ db.runs)
    × (work.scores ≡ db.scores)
    × ((new : List SettlementRecipient) × (work.recipients ≡ db.recipients ++ new))
    × ((new : List Reward) × (work.rewards ≡ db.rewards ++ new))

Grows-refl : (db : Db) → Grows db db
Grows-refl db =
    (refl, refl, refl, ([], sym (append-nil db.recipients)), ([], sym (append-nil db.rewards)))

Grows-trans : (a b c : Db) → Grows a b → Grows b c → Grows a c
Grows-trans a b c (g, r, s, (rs, er), (ws, ew)) (g2, r2, s2, (rs2, er2), (ws2, ew2)) = (
  g2 ∙ g,
  r2 ∙ r,
  s2 ∙ s,
  (rs ++ rs2, er2 ∙ ap (λ xs. xs ++ rs2) er ∙ append_assoc a.recipients rs rs2),
  (ws ++ ws2, ew2 ∙ ap (λ xs. xs ++ ws2) ew ∙ append_assoc a.rewards ws ws2),
)

-- A score of a run that has a recipient, and the recipient a reward.
abbrev pub IsPaid : SettlementRun → FinalScore → Db → Type 0
IsPaid run score db =
    (recipient : SettlementRecipient) × (find? (λ r. r.run_id == run.id && r.score_id == score.id)
        db.recipients
      ≡ some recipient)
    × (reward : Reward) × (settlement_reward recipient.id db ≡ some reward)

IsPaid-Grows :
    (run : SettlementRun) (score : FinalScore) (db work : Db)
    → Grows db work
    → IsPaid run score db
    → IsPaid run score work
unfolding settlement_reward
IsPaid-Grows run score db work (_, _, _, (rs, er), (ws, ew)) (recipient, entry, reward, paid) = (
  recipient,
  ap (find? (λ (r : SettlementRecipient). r.run_id == run.id && r.score_id == score.id)) er
      ∙ find?-append_found
          (λ (r : SettlementRecipient). r.run_id == run.id && r.score_id == score.id) db.recipients
          rs {a = recipient} entry,
  reward,
  ap (find? (λ (r : Reward). same_key r.settlement_recipient_id (some recipient.id))) ew
      ∙ find?-append_found (λ (r : Reward). same_key r.settlement_recipient_id (some recipient.id))
          db.rewards ws {a = reward} paid,
)

add_settlement_recipient-inv :
    (r : SettlementRecipient) (db : Db) {work : Db}
    → add_settlement_recipient r db ≡ ok work
    → work ≡ record db { recipients = db.recipients ++ r ∷ [] }
unfolding add_settlement_recipient
add_settlement_recipient-inv r db {work} e = ground arith

entered-inv :
    (r : SettlementRecipient) (x : Result Error Db) {at : Entered}
    → entered r x ≡ ok at
    → (x ≡ ok at.work) × (at.recipient ≡ r)
entered-inv r (err e) h = cc
entered-inv r (ok work) h =
    let same = ok_inj h in
    (ap (λ (x : Entered). ok x.work) same, ap (λ (x : Entered). x.recipient) (sym same))

-- Entering a score leaves it with a recipient.
enter-Grows :
    (call : SettleCall) (run : SettlementRun) (rank : ℕ) (score : FinalScore) (award : Award)
    (db : Db) {at : Entered}
    → enter call run rank score award db ≡ ok at
    → Grows db at.work × (recipient_of run score at.work ≡ some at.recipient)
unfolding enter
enter-Grows call run rank score award db {at} e = elim (Option-cases (recipient_of run score db)) [
  | inr (recipient, found) ↦
      let same : record { recipient = recipient; work = db } ≡ at =
        ok_inj (rw (found, enter) at e) in
      let kept : Grows db db × (recipient_of run score db ≡ some recipient) =
        (Grows-refl db, found) in
      subst (λ (x : Entered). Grows db x.work × (recipient_of run score x.work ≡ some x.recipient))
        same kept
  | inl without ↦
      let new = new_recipient call run rank score award in
      let (added, own) =
        entered-inv new (add_settlement_recipient new db) {at = at} (rw (without, enter) at e) in
      let shape = add_settlement_recipient-inv new db {work = at.work} added in
      let grown : Grows db (record db { recipients = db.recipients ++ new ∷ [] }) =
        (refl, refl, refl, (new ∷ [], refl), ([], sym (append-nil db.rewards))) in
      let test = λ (r : SettlementRecipient). r.run_id == run.id && r.score_id == score.id in
      let passes : test new ≡ true = rw (==_refl run.id) (==_refl score.id) in
      (
        subst (Grows db) (sym shape) grown,
        ap (λ (x : Db). find? test x.recipients) shape
            ∙ find?-append_new test db.recipients {a = new} without passes
            ∙ ap some (sym own),
      )
]

issue-inv :
    (call : SettleCall) (game_key : Text) (rank : ℕ) (at : Entered) {work : Db}
    → issue call game_key rank at ≡ ok work
    → Grows at.work work
      × (work.recipients ≡ at.work.recipients)
      × (work.rewards
          ≡ at.work.rewards
            ++ new_settlement_reward (call.reward_id rank) call.created_at at.recipient ∷ [])
unfolding issue add_settlement_reward add_reward_evidence add_event add_audit
issue-inv call game_key rank at {work} e =
    let rewards : work.rewards
        ≡ at.work.rewards
          ++ new_settlement_reward (call.reward_id rank) call.created_at at.recipient ∷ [] =
      ground arith in
    let recipients : work.recipients ≡ at.work.recipients = ground arith in
    (
      (
        ground arith,
        ground arith,
        ground arith,
        ([], recipients ∙ sym (append-nil at.work.recipients)),
        (new_settlement_reward (call.reward_id rank) call.created_at at.recipient ∷ [], rewards),
      ),
      recipients,
      rewards,
    )

pay-IsPaid :
    (call : SettleCall) (run : SettlementRun) (score : FinalScore) (game_key : Text) (rank : ℕ)
    (at : Entered) {work : Db}
    → recipient_of run score at.work ≡ some at.recipient
    → pay call game_key rank at ≡ ok work
    → Grows at.work work × IsPaid run score work
unfolding pay settlement_reward
pay-IsPaid call run score game_key rank at {work} entry e =
    elim (Option-cases (settlement_reward at.recipient.id at.work)) [
      | inr (reward, paid) ↦
          let same : at.work ≡ work = ok_inj (rw (paid, pay) at e) in
          let kept : Grows at.work at.work × IsPaid run score at.work =
            (Grows-refl at.work, (at.recipient, entry, reward, paid)) in
          subst (λ (x : Db). Grows at.work x × IsPaid run score x) same kept
      | inl unpaid ↦
          let (grown, recipients, rewards) =
            issue-inv call game_key rank at {work = work} (rw (unpaid, pay) at e) in
          let new = new_settlement_reward (call.reward_id rank) call.created_at at.recipient in
          let test = λ (r : Reward). same_key r.settlement_recipient_id (some at.recipient.id) in
          (
            grown,
            (
              at.recipient,
              ap (find? (λ (r : SettlementRecipient). r.run_id == run.id && r.score_id == score.id))
                    recipients
                  ∙ entry,
              new,
              ap (find? test) rewards
                  ∙ find?-append_new test at.work.rewards {a = new} unpaid
                      (==_refl at.recipient.id),
            ),
          )
    ]

settle_tier-IsPaid :
    (call : SettleCall) (run : SettlementRun) (game_key : Text) (tier : RewardTier) (rank : ℕ)
    (score : FinalScore) (db : Db) {work : Db}
    → settle_tier call run game_key tier rank score db ≡ ok work
    → Grows db work × IsPaid run score work
unfolding settle_tier
settle_tier-IsPaid call run game_key tier rank score db {work} e =
    let (award, awarded, e1) =
      >>=-eq-ok (award_of tier.key tier.reward_value)
        (λ award. enter call run rank score award db >>= pay call game_key rank) e in
    let (at, put, e2) =
      >>=-eq-ok (enter call run rank score award db) (pay call game_key rank) e1 in
    let (grown, entry) = enter-Grows call run rank score award db {at = at} put in
    let (paid_on, paid) = pay-IsPaid call run score game_key rank at {work = work} entry e2 in
    (Grows-trans db at.work work grown paid_on, paid)

-- The rank lies within the bounds of a tier.
abbrev pub IsWithin : ℕ → RewardTier → Type 0
IsWithin rank tier =
    (lo : ℕ) × (tier.min_rank ≡ some lo)
    × (hi : ℕ) × (tier.max_rank ≡ some hi)
    × (lo ≤ rank)
    × (rank ≤ hi)

abbrev pub SomeHolds : ℕ → List RewardTier → Type 0
SomeHolds rank [] = ⊥
SomeHolds rank (tier ∷ tiers) = IsWithin rank tier ⊎ SomeHolds rank tiers

IsWithin-tier_holds :
    (rank : ℕ) (tier : RewardTier) → IsWithin rank tier → tier_holds rank tier ≡ true
IsWithin-tier_holds rank tier (lo, from, hi, to, above, below) = rw (from, to) (ground arith)

SomeHolds-found :
    (rank : ℕ) (tiers : List RewardTier)
    → SomeHolds rank tiers
    → find? (tier_holds rank) tiers ≢ none
SomeHolds-found rank [] held e = held
SomeHolds-found rank (tier ∷ tiers) held e = elim (Bool-cases (tier_holds rank tier)) [
  | inl hit ↦ ground arith
  | inr miss ↦ elim held [
    | inl within ↦ absurd (false-true (sym miss ∙ IsWithin-tier_holds rank tier within))
    | inr later ↦ SomeHolds-found rank tiers later (rw miss at e)
  ]
]

-- Every score of the ranking from `rank` whose rank some tier holds is paid.
abbrev pub ArePaid : SettlementRun → List RewardTier → ℕ → List FinalScore → Db → Type 0
ArePaid run tiers rank [] db = Unit
ArePaid run tiers rank (score ∷ scores) db =
    (SomeHolds rank tiers → IsPaid run score db) × ArePaid run tiers (suc rank) scores db

settle_score-Grows :
    (call : SettleCall) (run : SettlementRun) (game_key : Text) (tiers : List RewardTier) (rank : ℕ)
    (score : FinalScore) (db : Db) {work : Db}
    → settle_score call run game_key tiers rank score db ≡ ok work
    → Grows db work × (SomeHolds rank tiers → IsPaid run score work)
unfolding settle_score
settle_score-Grows call run game_key tiers rank score db {work} e =
    elim (Option-cases (find? (tier_holds rank) tiers)) [
      | inl without ↦
          let same : db ≡ work = ok_inj (rw (without, settle_score) at e) in
          (
            subst (Grows db) same (Grows-refl db),
            λ held. absurd (SomeHolds-found rank tiers held without),
          )
      | inr (tier, found) ↦
          let (grown, paid) =
            settle_tier-IsPaid call run game_key tier rank score db {work = work}
              (rw (found, settle_score) at e) in
          (grown, λ _. paid)
    ]

pub settle_scores-ArePaid :
    (call : SettleCall) (run : SettlementRun) (game_key : Text) (tiers : List RewardTier) (rank : ℕ)
    (scores : List FinalScore) (db : Db) {work : Db}
    → settle_scores call run game_key tiers rank scores db ≡ ok work
    → Grows db work × ArePaid run tiers rank scores work
unfolding settle_scores
settle_scores-ArePaid call run game_key tiers rank [] db {work} e =
    (subst (Grows db) (ok_inj e) (Grows-refl db), tt)
settle_scores-ArePaid call run game_key tiers rank (score ∷ scores) db {work} e =
    let (next, settled, e1) =
      >>=-eq-ok (settle_score call run game_key tiers rank score db)
        (settle_scores call run game_key tiers (suc rank) scores) e in
    let (grown, paid) =
      settle_score-Grows call run game_key tiers rank score db {work = next} settled in
    let (grown_on, rest) =
      settle_scores-ArePaid call run game_key tiers (suc rank) scores next {work = work} e1 in
    (
      Grows-trans db next work grown grown_on,
      (λ held. IsPaid-Grows run score next work grown_on (paid held), rest),
    )
