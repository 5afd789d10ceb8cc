-- ===== src/Claims/Once.antt =====
-- A reward of app/services/rewards.py is claimed once.
use python_rng_game_platform.Base.{
  ℕ, ◌≡◌, ◌⊎◌, refl, ap, sym, ◌∙◌, inl, inr, true, List, [], ◌∷◌, ◌++◌, Option, none, some,
  Option-cases, Bool-cases, ◌==◌, find?, Text, codes, ok, Result-cases, arith,
}
use python_rng_game_platform.Models.Rows.{Outcome, Reward, RewardStatus}
use python_rng_game_platform.Store.{
  Db, committed, replace, put_reward, lock_reward_by_session, find_reward_of, same_key,
}
use python_rng_game_platform.Store.Lookups.{find?-test, find?-replace_where}
use python_rng_game_platform.Store.Evidence.{
  add_event, add_audit, add_reward_evidence, game_key_for_reward, reward_event, reward_audit,
}
use python_rng_game_platform.Claims.{
  Claim, already_claimed, newly_claimed, claim_reward, finish_claim, claim_owned,
  claim_session_reward,
}

-- The claimed form of a reward.
abbrev pub claimed_at : ℕ → Reward → Reward
claimed_at now r = record r { status = RewardStatus.claimed; claimed_at = some now }

claim_reward-inv :
    (r : Reward) (now : ℕ) {new : Reward}
    → claim_reward r now ≡ ok (newly_claimed new)
    → (r.status ≡ RewardStatus.issued) × (new ≡ claimed_at now r)
unfolding claim_reward
claim_reward-inv r now {new} e = ground arith

-- The tables after a first claim: the reward's row, one audit record and one event.
abbrev pub claimed_db : Reward → Text → Db → Db
claimed_db new game_key db = record db {
  rewards = replace (λ x. x.id) new db.rewards;
  audits = db.audits ++ reward_audit (codes "reward_claimed") new game_key ∷ [];
  analytics = db.analytics ++ reward_event (codes "reward_claimed") new game_key ∷ [];
}

add_reward_evidence-inv :
    (new : Reward) (game_key : Text) (db : Db) {work : Db}
    → add_reward_evidence (codes "reward_claimed") new game_key (put_reward new db) ≡ ok work
    → work ≡ claimed_db new game_key db
unfolding add_reward_evidence put_reward add_audit add_event
add_reward_evidence-inv new game_key db {work} e = ground arith

finish_claim-inv :
    (new old : Reward) (db : Db) {r : Reward}
    → (finish_claim (newly_claimed new) old db).result ≡ ok r
    → (r ≡ new)
      × (game_key : Text) × (game_key_for_reward new db ≡ some game_key)
      × ((finish_claim (newly_claimed new) old db).durable ≡ claimed_db new game_key db)
unfolding finish_claim
finish_claim-inv new old db {r} e = elim (Option-cases (game_key_for_reward new db)) [
  | inl missing ↦ absurd (ground arith)
  | inr (game_key, found) ↦
      elim (Result-cases
        (add_reward_evidence (codes "reward_claimed") new game_key (put_reward new db))) [
          | inr (x, failed) ↦ absurd (ground arith)
          | inl (work, added) ↦ (
            ground arith,
            game_key,
            found,
            rw (found, added, finish_claim)
                (add_reward_evidence-inv new game_key db {work = work} added),
          )
        ]
]

-- What a successful claim did.
abbrev pub IsClaimed : ℕ → Reward → Reward → Db → Db → Type 0
IsClaimed now old r db durable =
    ((old.status ≡ RewardStatus.claimed) × (r ≡ old) × (durable ≡ db))
    ⊎ ((old.status ≡ RewardStatus.issued)
        × (r ≡ claimed_at now old)
        × (game_key : Text) × (durable ≡ claimed_db r game_key db))

claim_reward-old :
    (r : Reward) (now : ℕ)
    → claim_reward r now ≡ ok already_claimed
    → r.status ≡ RewardStatus.claimed
unfolding claim_reward
claim_reward-old r now e = ground arith

finish_claim-IsClaimed :
    (old : Reward) (now : ℕ) (db : Db) (claim : Claim) {r : Reward}
    → claim_reward old now ≡ ok claim
    → (finish_claim claim old db).result ≡ ok r
    → IsClaimed now old r db (finish_claim claim old db).durable
unfolding finish_claim
finish_claim-IsClaimed old now db already_claimed {r} decided e =
    inl (claim_reward-old old now decided, ground arith, refl)
finish_claim-IsClaimed old now db (newly_claimed new) {r} decided e =
    let shape = claim_reward-inv old now {new = new} decided in
    let (answer, game_key, found, durable) = finish_claim-inv new old db {r = r} e in
    inr (
      shape.0,
      answer ∙ shape.1,
      game_key,
      durable ∙ ap (λ x. claimed_db x game_key db) (sym answer),
    )

claim_owned-IsClaimed :
    (owner_id now : ℕ) (old : Reward) (db : Db) {r : Reward}
    → (claim_owned owner_id now old db).result ≡ ok r
    → ((old.player_id == owner_id) ≡ true)
      × IsClaimed now old r db (claim_owned owner_id now old db).durable
unfolding claim_owned
claim_owned-IsClaimed owner_id now old db {r} e = elim (Bool-cases (old.player_id == owner_id)) [
  | inr other ↦ absurd (ground arith)
  | inl own ↦ elim (Result-cases (claim_reward old now)) [
    | inr (x, failed) ↦ absurd (ground arith)
    | inl (claim, decided) ↦ (
      own,
      rw (own, decided, claim_owned)
          (finish_claim-IsClaimed old now db claim {r = r} decided
            (rw (own, decided, claim_owned) at e)),
    )
  ]
]

-- A claim that answers changes the session's own reward of the caller: one that was claimed is
-- answered as it stands and nothing changes; one that was issued becomes claimed, with one audit
-- record and one analytics event, and nothing else changes.
pub claim_session_reward_effect :
    (session_id owner_id now : ℕ) (db : Db) {r : Reward}
    → (claim_session_reward session_id owner_id now db).result ≡ ok r
    → (old : Reward) × (lock_reward_by_session session_id db ≡ some old)
      × ((old.player_id == owner_id) ≡ true)
      × IsClaimed now old r db (claim_session_reward session_id owner_id now db).durable
unfolding claim_session_reward
claim_session_reward_effect session_id owner_id now db {r} e =
    elim (Option-cases (lock_reward_by_session session_id db)) [
      | inl missing ↦ absurd (ground arith)
      | inr (old, found) ↦
          let done =
            claim_owned-IsClaimed owner_id now old db {r = r}
              (rw (found, claim_session_reward) at e) in
          (old, found, done.0, rw (found, claim_session_reward) done.1)
    ]

find_reward_of-claimed :
    (o : Option Outcome) (old : Reward) (now : ℕ) (rewards : List Reward)
    → find_reward_of o rewards ≡ some old
    → find_reward_of o (replace (λ x. x.id) (claimed_at now old) rewards)
      ≡ some (claimed_at now old)
find_reward_of-claimed none old now rewards found = cc
find_reward_of-claimed (some o) old now rewards found =
    find?-replace_where (λ x. x.id) (λ x. same_key x.outcome_id (some o.id)) (claimed_at now old)
      rewards {b = old} found refl
      (find?-test (λ x. same_key x.outcome_id (some o.id)) rewards {a = old} found)

-- The reward is found again where it was, claimed.
found_again :
    (session_id now : ℕ) (old : Reward) (game_key : Text) (db : Db)
    → lock_reward_by_session session_id db ≡ some old
    → lock_reward_by_session session_id (claimed_db (claimed_at now old) game_key db)
      ≡ some (claimed_at now old)
unfolding lock_reward_by_session
found_again session_id now old game_key db found =
    find_reward_of-claimed (find? (λ o. o.session_id == session_id) db.outcomes) old now db.rewards
      found

claim_reward-again :
    (r : Reward) (later : ℕ)
    → r.status ≡ RewardStatus.claimed
    → claim_reward r later ≡ ok already_claimed
unfolding claim_reward
claim_reward-again r later h = ground arith

-- A claimed reward is answered as it stands.
claimed_before :
    (session_id owner_id later : ℕ) (old : Reward) (db : Db)
    → lock_reward_by_session session_id db ≡ some old
    → (old.player_id == owner_id) ≡ true
    → old.status ≡ RewardStatus.claimed
    → claim_session_reward session_id owner_id later db ≡ committed old db
unfolding claim_session_reward claim_owned claim_reward finish_claim
claimed_before session_id owner_id later old db found own claimed =
    rw (found, own, claim_reward-again old later claimed, claim_session_reward, claim_owned) refl

-- A claim is idempotent: after a claim that answered, every further one, at any time, gives the same
-- answer and changes nothing.
pub claim_session_reward_once :
    (session_id owner_id now later : ℕ) (db : Db) {r : Reward}
    → (claim_session_reward session_id owner_id now db).result ≡ ok r
    → claim_session_reward session_id owner_id later
        (claim_session_reward session_id owner_id now db).durable
      ≡ committed r (claim_session_reward session_id owner_id now db).durable
claim_session_reward_once session_id owner_id now later db {r} e =
    let (old, found, own, done) =
      claim_session_reward_effect session_id owner_id now db {r = r} e in
    elim done [
      | inl (claimed, same, kept) ↦
          rw (kept, same) (claimed_before session_id owner_id later old db found own claimed)
      | inr (issued, same, game_key, changed) ↦
          rw (changed, same)
            (claimed_before session_id owner_id later (claimed_at now old)
              (claimed_db (claimed_at now old) game_key db)
              (found_again session_id now old game_key db found) own refl)
    ]
