-- ===== src/Rng/Select/Interval.antt =====
-- Which band the selection of app/rng.py returns.
use mathlib.Core.Path.{subst}
use python_rng_game_platform.Base.{
  ℕ, ◌+◌, ◌-◌, ◌≤◌, ◌<◌, ◌≡◌, refl, sym, ◌∙◌, ap, List, [], ◌∷◌, ◌++◌, inl, inr, arith, ltb,
  Bool-cases, ok, ok_inj,
}
use python_rng_game_platform.Rng.Types.{RewardBand, total_weight}
use python_rng_game_platform.Rng.Select.{select_loop, select_daily_spin_reward}
use python_rng_game_platform.Rng.Select.Valid.{IsRewardMap, validate_reward_bands_iff}

-- `band` is the one whose share of the line, behind the bands before it, holds `v`.
abbrev pub HoldsAt : List RewardBand → ℕ → RewardBand → Type 0
HoldsAt bands v band =
    (before : List RewardBand) × (after : List RewardBand) × (bands ≡ before ++ band ∷ after)
    × (total_weight before ≤ v)
    × (v < total_weight before + band.weight)

pub select_loop-HoldsAt :
    (bands : List RewardBand) (v : ℕ)
    → v < total_weight bands
    → (band : RewardBand) × (select_loop bands v ≡ ok band) × HoldsAt bands v band
unfolding select_loop
select_loop-HoldsAt [] v h = absurd (omega arith)
select_loop-HoldsAt (b ∷ bs) v h = elim (Bool-cases (ltb v b.weight)) [
  | inl here ↦ (b, rw here refl, ([], bs, refl, omega arith, ground arith))
  | inr later ↦
      let (band, e, (before, after, split, low, high)) =
        select_loop-HoldsAt bs (v - b.weight) (ground arith) in
      (band, rw later e, (b ∷ before, after, ap (◌∷◌ b) split, ground arith, ground arith))
]

-- On a reward map and a value below its total weight the selection succeeds, with the band whose
-- interval of the cumulated weights holds the value.
pub select_HoldsAt :
    (bands : List RewardBand) (v : ℕ)
    → IsRewardMap bands
    → v < total_weight bands
    → (band : RewardBand) × (select_daily_spin_reward bands v ≡ ok band) × HoldsAt bands v band
unfolding select_daily_spin_reward
select_HoldsAt bands v m h =
    let (band, e, holds) = select_loop-HoldsAt bands v h in
    (band, rw ((validate_reward_bands_iff bands).1 m) (ground arith), holds)

-- What the selection returns is what its loop returns, where the guards pass.
pub select_daily_spin_reward-eq :
    (bands : List RewardBand) (v : ℕ)
    → IsRewardMap bands
    → v < total_weight bands
    → select_daily_spin_reward bands v ≡ select_loop bands v
unfolding select_daily_spin_reward
select_daily_spin_reward-eq bands v m h = rw ((validate_reward_bands_iff bands).1 m) (ground arith)

-- A selection that succeeds was made on a reward map, from a value below its total weight.
pub selected :
    (bands : List RewardBand) (v : ℕ) {band : RewardBand}
    → select_daily_spin_reward bands v ≡ ok band
    → IsRewardMap bands × (v < total_weight bands) × HoldsAt bands v band
unfolding select_daily_spin_reward
selected bands v {band} e =
    let is_map = (validate_reward_bands_iff bands).0 (ground arith) in
    let below : v < total_weight bands = ground arith in
    let found = select_loop-HoldsAt bands v below in
    let looped : select_loop bands v ≡ ok band = ground arith in
    (is_map, below, subst (HoldsAt bands v) (ok_inj (sym found.1 ∙ looped)) found.2)
