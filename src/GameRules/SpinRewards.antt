-- ===== src/GameRules/SpinRewards.antt =====
-- The daily spin of app/game_rules.py and the draw of app/rng.py agree on what a band is worth.
use mathlib.Core.Path.{subst}
use python_rng_game_platform.Base.{
  ℕ, ◌≡◌, ◌≢◌, refl, ap, sym, ◌∙◌, List, [], ◌∷◌, ◌++◌, ==ˢ_refl, ==ˢ_ne, Text, codes, map, head_eq,
  tail_eq, Result, ok, >>=-eq-ok, ok_inj, ◌>>=◌,
}
use python_rng_game_platform.Rng.Types.{RewardBand}
use python_rng_game_platform.Rng.Select.{select_daily_spin_reward}
use python_rng_game_platform.Rng.Select.Valid.{Fresh}
use python_rng_game_platform.Rng.Select.Shares.{Fresh-middle}
use python_rng_game_platform.Rng.Select.Interval.{selected}
use python_rng_game_platform.Models.Json.{text, get}
use python_rng_game_platform.Models.Schemas.{
  ConfigBand, DailySpinConfig, GameConfigPayload, daily_spin_config,
}
use python_rng_game_platform.Models.Errors.{Error}
use python_rng_game_platform.Models.Rows.{GameConfigVersion, Outcome}
use python_rng_game_platform.GameRules.{
  find_band_value, to_reward_band, as_daily_spin, validated_config, fairness_reward_bands,
  daily_spin_value,
}

key_ne :
    (p : ConfigBand) (ps : List ConfigBand) (keys : List Text) (before : List RewardBand)
    (r : RewardBand) (after : List RewardBand)
    → Fresh keys (to_reward_band p ∷ map to_reward_band ps)
    → map to_reward_band ps ≡ before ++ r ∷ after
    → p.key ≢ r.key
key_ne p ps keys before r after fresh split same =
    Fresh-middle [] keys p.key before r after (subst (Fresh (p.key ∷ keys)) split fresh.1)
      (sym same)

find_band_value-split :
    (rewards : List ConfigBand) (keys : List Text) (before : List RewardBand) (r : RewardBand)
    (after : List RewardBand)
    → Fresh keys (map to_reward_band rewards)
    → map to_reward_band rewards ≡ before ++ r ∷ after
    → find_band_value rewards (text r.key) ≡ ok r.value
unfolding find_band_value
find_band_value-split [] keys [] r after fresh split = cc
find_band_value-split [] keys (b ∷ bs) r after fresh split = cc
find_band_value-split (p ∷ ps) keys [] r after fresh split =
    let same : to_reward_band p ≡ r = head_eq split in rw (← same, ==ˢ_refl p.key) refl
find_band_value-split (p ∷ ps) keys (b ∷ bs) r after fresh split =
    rw (==ˢ_ne p.key r.key (key_ne p ps keys bs r after fresh (tail_eq split)))
      (find_band_value-split ps (p.key ∷ keys) bs r after fresh.1 (tail_eq split))

as_daily_spin-inv :
    (payload : GameConfigPayload) {spin : DailySpinConfig}
    → as_daily_spin payload ≡ ok spin
    → payload ≡ daily_spin_config spin
as_daily_spin-inv (daily_spin_config c) e = ap daily_spin_config (ok_inj e)
as_daily_spin-inv _ e = cc

bands-config :
    (config : GameConfigVersion) {bands : List RewardBand}
    → fairness_reward_bands config ≡ ok bands
    → (spin : DailySpinConfig) × (validated_config config ≡ ok (daily_spin_config spin))
      × (map to_reward_band spin.rewards ≡ bands)
unfolding fairness_reward_bands
bands-config config {bands} e =
    let finish : DailySpinConfig → Result Error (List RewardBand) =
      λ spin. ok (map to_reward_band spin.rewards) in
    let valid =
      >>=-eq-ok (validated_config config) (λ payload. as_daily_spin payload >>= finish) e in
    let spin = >>=-eq-ok (as_daily_spin valid.0) finish valid.2 in
    (spin.0, valid.1 ∙ ap ok (as_daily_spin-inv valid.0 spin.1), ok_inj spin.2)

-- If a draw on the configuration's bands selects a reward, then the rules derive from every outcome
-- that records the reward's key the value of that very reward.
pub daily_spin_value-selected :
    (config : GameConfigVersion) (outcome : Outcome) (v : ℕ) {bands : List RewardBand}
    {reward : RewardBand}
    → fairness_reward_bands config ≡ ok bands
    → select_daily_spin_reward bands v ≡ ok reward
    → get (codes "reward_key") outcome.result ≡ text reward.key
    → daily_spin_value config outcome ≡ ok reward.value
unfolding daily_spin_value
daily_spin_value-selected config outcome v {bands} {reward} offered drawn recorded =
    let (spin, valid, mapped) = bands-config config offered in
    let (is_map, below, (before, after, split, low, high)) = selected bands v drawn in
    rw (valid, recorded)
      (find_band_value-split spin.rewards [] before reward after
        (subst (Fresh []) (sym mapped) is_map.distinct) (mapped ∙ split))
