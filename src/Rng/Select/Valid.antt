-- ===== src/Rng/Select/Valid.antt =====
-- What the validation of a reward map in app/rng.py establishes.
use python_rng_game_platform.Base.{
  ℕ, ◌+◌, ◌≤◌, ◌<◌, ◌≡◌, ◌≢◌, ◌↔◌, refl, false, List, [], ◌∷◌, arith, ◌==ˢ◌, ==ˢ_complete, ==ˢ_ne,
  Text, any, All, ok, >>=-eq-ok,
}
use python_rng_game_platform.Rng.Types.{
  RewardBand, total_weight, max_reward_weight, max_reward_value, validate_band, validate_bands,
  validate_reward_bands, is_nil,
}

abbrev pub keys_of : List RewardBand → List Text
keys_of [] = []
keys_of (b ∷ bs) = b.key ∷ keys_of bs

-- A band that may stand in a map by itself.
pub record IsBand (b : RewardBand) : Type 0 where
  pub named : b.key ≢ []
  pub weighs : 0 < b.weight
  pub weight_fits : b.weight ≤ max_reward_weight
  pub value_fits : b.value ≤ max_reward_value

-- No key stands twice, nor among `keys`.
abbrev pub Fresh : List Text → List RewardBand → Type 0
Fresh keys [] = Unit
Fresh keys (b ∷ bs) = All (λ k. b.key ≢ k) keys × Fresh (b.key ∷ keys) bs

-- The maps that the program evaluates.
pub record IsRewardMap (bands : List RewardBand) : Type 0 where
  pub nonempty : bands ≢ []
  pub each : All IsBand bands
  pub distinct : Fresh [] bands
  pub total_fits : total_weight bands ≤ max_reward_weight

any_key-ne :
    (key : Text) (keys : List Text) → any (λ k. key ==ˢ k) keys ≡ false → All (λ k. key ≢ k) keys
any_key-ne key [] h = tt
any_key-ne key (k ∷ ks) h =
    (λ e. ground (arith, ==ˢ_complete key k e), any_key-ne key ks (ground arith))

ne-any_key :
    (key : Text) (keys : List Text) → All (λ k. key ≢ k) keys → any (λ k. key ==ˢ k) keys ≡ false
ne-any_key key [] h = refl
ne-any_key key (k ∷ ks) h = rw (==ˢ_ne key k h.0) (ne-any_key key ks h.1)

is_nil-ne : (s : Text) → is_nil s ≡ false → s ≢ []
unfolding is_nil
is_nil-ne [] h = cc
is_nil-ne (c ∷ s) h = λ e. cc

ne-is_nil : (s : Text) → s ≢ [] → is_nil s ≡ false
unfolding is_nil
ne-is_nil [] h = absurd (h refl)
ne-is_nil (c ∷ s) h = refl

-- What one round of the validation loop checks.
validate_band_sound :
    (b : RewardBand) (keys : List Text) (total : ℕ)
    → validate_band b keys total ≡ ok tt
    → IsBand b × All (λ k. b.key ≢ k) keys × (total + b.weight ≤ max_reward_weight)
unfolding validate_band
validate_band_sound b keys total h = (
  record {
    named = is_nil-ne b.key (ground arith);
    weighs = ground arith;
    weight_fits = ground arith;
    value_fits = ground arith;
  },
  any_key-ne b.key keys (ground arith),
  ground arith,
)

validate_band_complete :
    (b : RewardBand) (keys : List Text) (total : ℕ)
    → IsBand b
    → All (λ k. b.key ≢ k) keys
    → total + b.weight ≤ max_reward_weight
    → validate_band b keys total ≡ ok tt
unfolding validate_band
validate_band_complete b keys total v fresh fits =
    rw (ne-is_nil b.key v.named, ne-any_key b.key keys fresh)
      (let w = v.weighs in let x = v.weight_fits in let y = v.value_fits in ground arith)

validate_bands_sound :
    (bands : List RewardBand) (keys : List Text) (total : ℕ)
    → total ≤ max_reward_weight
    → validate_bands bands keys total ≡ ok tt
    → All IsBand bands × Fresh keys bands × (total + total_weight bands ≤ max_reward_weight)
unfolding validate_bands
validate_bands_sound [] keys total le h = (tt, tt, omega arith)
validate_bands_sound (b ∷ bs) keys total le h =
    let steps = >>=-eq-ok (validate_band b keys total) _ h in
    let here = validate_band_sound b keys total steps.1 in
    let rest = validate_bands_sound bs (b.key ∷ keys) (total + b.weight) here.2 steps.2 in
    ((here.0, rest.0), (here.1, rest.1), omega arith)

validate_bands_complete :
    (bands : List RewardBand) (keys : List Text) (total : ℕ)
    → All IsBand bands
    → Fresh keys bands
    → total + total_weight bands ≤ max_reward_weight
    → validate_bands bands keys total ≡ ok tt
unfolding validate_bands
validate_bands_complete [] keys total v fresh fits = refl
validate_bands_complete (b ∷ bs) keys total v fresh fits =
    rw (validate_band_complete b keys total v.0 fresh.0 (omega arith))
      (validate_bands_complete bs (b.key ∷ keys) (total + b.weight) v.1 fresh.1 (omega arith))

-- The validation accepts exactly the reward maps.
pub validate_reward_bands_iff :
    (bands : List RewardBand) → (validate_reward_bands bands ≡ ok tt) ↔ IsRewardMap bands
unfolding validate_reward_bands
validate_reward_bands_iff [] = (λ h. cc, λ m. absurd (m.nonempty refl))
validate_reward_bands_iff (b ∷ bs) = (
  λ h.
      let parts = validate_bands_sound (b ∷ bs) [] 0 (omega arith) h in
      record {
        nonempty = λ e. cc;
        each = parts.0;
        distinct = parts.1;
        total_fits = omega (arith, parts.2);
      },
  λ m. validate_bands_complete (b ∷ bs) [] 0 m.each m.distinct (omega (arith, m.total_fits)),
)

pub total_weight-pos : (bands : List RewardBand) → IsRewardMap bands → 0 < total_weight bands
total_weight-pos [] m = absurd (m.nonempty refl)
total_weight-pos (b ∷ bs) m = omega (arith, m.each.0.weighs)
