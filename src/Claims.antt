-- ===== src/Claims.antt =====
-- app/services/rewards.py: what a reward is worth, and how it is claimed.
pub mod Once
use python_rng_game_platform.Base.{
  ℕ, Bool, true, false, not, Option, none, some, ◌==◌, if◌then◌else◌, Text, codes, Result, ok, err,
  ◌>>=◌, ◌>>◌,
}
use python_rng_game_platform.Models.Errors.{
  Error, not_found, forbidden, reward_unavailable, invalid_play, invalid_rules_input,
}
use python_rng_game_platform.Models.Rows.{GameConfigVersion, Outcome, Reward, RewardStatus}
use python_rng_game_platform.GameRules.{validated_config}
use python_rng_game_platform.GameRules.Registry.{rules_for, rules_reward_value}
use python_rng_game_platform.Store.{
  Db, Reply, rolled_back, committed, lock_reward_by_session, put_reward, lock_session,
}
use python_rng_game_platform.Store.Evidence.{add_reward_evidence, game_key_for_reward}

-- `except InvalidRulesInputError`, raised again as `InvalidPlayError`.
abbrev pub as_invalid_play : {A : Type 0} → Result Error A → Result Error A
as_invalid_play (err invalid_rules_input) = err invalid_play
as_invalid_play r = r

-- `reward_value` with the key of the game given.
unfoldable pub reward_value : GameConfigVersion → Outcome → Text → Result Error ℕ
reward_value config outcome game_key = do
  payload ← validated_config config
  as_invalid_play (rules_for game_key >>= λ game. rules_reward_value game.key config outcome)

-- What `claim_reward` does to a reward: nothing, or the transition.
pub data Claim : Type 0 where
  already_claimed : Claim
  newly_claimed : Reward → Claim

unfoldable pub claim_reward : Reward → ℕ → Result Error Claim
claim_reward r now = elim r.status [
  | RewardStatus.claimed ↦ ok already_claimed
  | RewardStatus.issued ↦
      ok (newly_claimed (record r { status = RewardStatus.claimed; claimed_at = some now }))
  | RewardStatus.expired ↦ err reward_unavailable
]

-- Why a session has no reward that its owner could claim.
unfoldable pub no_reward : ℕ → ℕ → Db → Error
no_reward session_id owner_id db = elim (lock_session session_id db) [
  | none ↦ not_found
  | some s ↦ if s.player_id == owner_id then reward_unavailable else forbidden
]

-- The evidence of a claim, and the commit.
unfoldable pub finish_claim : Claim → Reward → Db → Reply Reward
finish_claim already_claimed r db = committed r db
finish_claim (newly_claimed new) r db = elim (game_key_for_reward new db) [
  | none ↦ rolled_back not_found db
  | some game_key ↦
      elim (add_reward_evidence (codes "reward_claimed") new game_key (put_reward new db)) [
        | err e ↦ rolled_back e db
        | ok work ↦ committed new work
      ]
]

unfoldable pub claim_owned : ℕ → ℕ → Reward → Db → Reply Reward
unfolding finish_claim claim_reward
claim_owned owner_id now r db =
    if not (r.player_id == owner_id)
    then rolled_back forbidden db
    else elim (claim_reward r now) [ err e ↦ rolled_back e db | ok claim ↦ finish_claim claim r db ]

unfoldable pub claim_session_reward : ℕ → ℕ → ℕ → Db → Reply Reward
unfolding claim_owned
claim_session_reward session_id owner_id now db = elim (lock_reward_by_session session_id db) [
  | none ↦ rolled_back (no_reward session_id owner_id db) db
  | some r ↦ claim_owned owner_id now r db
]
