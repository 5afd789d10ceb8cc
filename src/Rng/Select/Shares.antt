-- ===== src/Rng/Select/Shares.antt =====
-- The shares of the reward bands: how many raw values lead to each reward key.
use python_rng_game_platform.Base.{
  ℕ, ◌+◌, ◌-◌, ◌*◌, ◌/◌, ◌%◌, ◌≡◌, ◌≢◌, refl, sym, ap, ◌∙◌, Bool, false, List, [], ◌∷◌, ◌++◌, inl,
  inr, arith, ◌==ˢ◌, ==ˢ_ne, ==ˢ_refl, if◌then◌else◌, Bool-cases, Text, All, Result, ok, err,
}
use native.Mathlib.Nat.{mod-lt}
use python_rng_game_platform.Rng.Types.{FairnessError, RewardBand, total_weight}
use python_rng_game_platform.Rng.Uniform.{rejection_limit}
use python_rng_game_platform.Rng.Uniform.Counting.{
  count_below, count_below-zero, count_below-add, count_below-congr, count_below_all,
  count_below_none, count_below-mod, rejection_limit-mul,
}
use python_rng_game_platform.Rng.Select.{select_loop, select_daily_spin_reward}
use python_rng_game_platform.Rng.Select.Valid.{IsRewardMap, Fresh, total_weight-pos}
use python_rng_game_platform.Rng.Select.Interval.{select_daily_spin_reward-eq}

-- The selection returned a band with this key.
abbrev pub picks : Text → Result FairnessError RewardBand → Bool
picks key (ok band) = band.key ==ˢ key
picks key (err _) = false

-- The weight that a reward map gives to a key.
abbrev pub weight_of : Text → List RewardBand → ℕ
weight_of key [] = 0
weight_of key (b ∷ bs) = (if b.key ==ˢ key then b.weight else 0) + weight_of key bs

head_share :
    (key : Text) (b : RewardBand) (bs : List RewardBand)
    → count_below b.weight (λ v. picks key (select_loop (b ∷ bs) v))
      ≡ (if b.key ==ˢ key then b.weight else 0)
unfolding select_loop
head_share key b bs = elim (Bool-cases (b.key ==ˢ key)) [
  | inl e ↦ rw e (count_below_all b.weight _ (λ v h. ground arith))
  | inr e ↦ rw e (count_below_none b.weight _ (λ v h. ground arith))
]

tail_select :
    (b : RewardBand) (bs : List RewardBand) (v : ℕ)
    → select_loop (b ∷ bs) (b.weight + v) ≡ select_loop bs v
unfolding select_loop
tail_select b bs v = let e : b.weight + v - b.weight ≡ v = omega arith in rw e (ground arith)

-- Of the values below the total weight, a key gets as many as its weight.
loop_shares :
    (key : Text) (bands : List RewardBand)
    → count_below (total_weight bands) (λ v. picks key (select_loop bands v)) ≡ weight_of key bands
loop_shares key [] = count_below-zero _
loop_shares key (b ∷ bs) =
    rw
      (
        count_below-add b.weight (total_weight bs) (λ v. picks key (select_loop (b ∷ bs) v)),
        head_share key b bs,
      )
      (ap (λ (n : ℕ). (if b.key ==ˢ key then b.weight else 0) + n)
        (count_below-congr (total_weight bs) _ (λ v. picks key (select_loop bs v))
            (λ v h. ap (picks key) (tail_select b bs v))
          ∙ loop_shares key bs))

accepted_shares :
    (range : ℕ) (key : Text) (bands : List RewardBand)
    → IsRewardMap bands
    → count_below
        (rejection_limit range (total_weight bands))
        (λ raw. picks key (select_daily_spin_reward bands (raw % total_weight bands)))
      ≡ range / total_weight bands * weight_of key bands
accepted_shares range key bands m = rw (rejection_limit-mul range (total_weight bands)) (
    count_below-congr _ _ (λ raw. picks key (select_loop bands (raw % total_weight bands)))
      (λ raw h.
        ap (picks key)
          (select_daily_spin_reward-eq bands _ m (mod-lt raw (total_weight-pos bands m))))
    ∙ count_below-mod (range / total_weight bands) (total_weight bands)
        (λ v. picks key (select_loop bands v))
    ∙ ap (λ (n : ℕ). range / total_weight bands * n) (loop_shares key bands))

not_behind : (a k : Text) (front keys : List Text) → All (λ j. a ≢ j) (front ++ k ∷ keys) → a ≢ k
not_behind a k [] keys h = h.0
not_behind a k (j ∷ front) keys h = not_behind a k front keys h.1

-- A key that is taken already has no weight among the bands that follow.
weight_of_absent :
    (key : Text) (front keys : List Text) (bands : List RewardBand)
    → Fresh (front ++ key ∷ keys) bands
    → weight_of key bands ≡ 0
weight_of_absent key front keys [] f = refl
weight_of_absent key front keys (b ∷ bs) f =
    rw (==ˢ_ne b.key key (not_behind b.key key front keys f.0))
      (omega (arith, weight_of_absent key (b.key ∷ front) keys bs f.1))

pub Fresh-middle :
    (front keys : List Text) (key : Text) (before : List RewardBand) (b : RewardBand)
    (after : List RewardBand)
    → Fresh (front ++ key ∷ keys) (before ++ b ∷ after)
    → b.key ≢ key
Fresh-middle front keys key [] b after f = not_behind b.key key front keys f.0
Fresh-middle front keys key (p ∷ ps) b after f =
    Fresh-middle (p.key ∷ front) keys key ps b after f.1

weight_of_band :
    (keys : List Text) (before : List RewardBand) (b : RewardBand) (after : List RewardBand)
    → Fresh keys (before ++ b ∷ after)
    → weight_of b.key (before ++ b ∷ after) ≡ b.weight
weight_of_band keys [] b after f =
    rw (==ˢ_refl b.key) (omega (arith, weight_of_absent b.key [] keys after f.1))
weight_of_band keys (p ∷ ps) b after f =
    rw (==ˢ_ne p.key b.key (λ e. Fresh-middle [] keys p.key ps b after f.1 (sym e)))
      (omega (arith, weight_of_band (p.key ∷ keys) ps b after f.1))

-- Rejection sampling followed by the selection is fair: of the raw values below `range` that are
-- accepted, the key of each band of a reward map is drawn by (range / total weight) * weight.
pub band_shares :
    (range : ℕ) (before : List RewardBand) (b : RewardBand) (after : List RewardBand)
    → IsRewardMap (before ++ b ∷ after)
    → let bands = before ++ b ∷ after in
      count_below
        (rejection_limit range (total_weight bands))
        (λ raw. picks b.key (select_daily_spin_reward bands (raw % total_weight bands)))
      ≡ range / total_weight bands * b.weight
band_shares range before b after m =
    let bands = before ++ b ∷ after in
    accepted_shares range b.key bands m
    ∙ ap (λ (n : ℕ). range / total_weight bands * n) (weight_of_band [] before b after m.distinct)
