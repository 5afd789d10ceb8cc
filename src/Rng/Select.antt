-- ===== src/Rng/Select.antt =====
-- `select_daily_spin_reward` of app/rng.py: from a normalized value to a weighted reward band.
pub mod Valid
pub mod Interval
pub mod Shares
use python_rng_game_platform.Base.{
  ℕ, ◌-◌, List, [], ◌∷◌, ltb, not, if◌then◌else◌, Result, ok, err, raise_if, ◌>>=◌, ◌>>◌,
}
use python_rng_game_platform.Rng.Types.{
  FairnessError, assertion, invalid_reward_mapping, RewardBand, total_weight, validate_reward_bands,
}

-- The loop over the bands; running off its end is the `AssertionError`.
unfoldable pub select_loop : List RewardBand → ℕ → Result FairnessError RewardBand
select_loop [] remaining = err assertion
select_loop (band ∷ bands) remaining =
    let rest = select_loop bands (remaining - band.weight) in
    if ltb remaining band.weight then ok band else rest

unfoldable pub select_daily_spin_reward : List RewardBand → ℕ → Result FairnessError RewardBand
select_daily_spin_reward bands normalized_value = do
  validate_reward_bands bands
  raise_if (not (ltb normalized_value (total_weight bands))) invalid_reward_mapping
  select_loop bands normalized_value
