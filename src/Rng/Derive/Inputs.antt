-- ===== src/Rng/Derive/Inputs.antt =====
-- `derive_daily_spin` of app/rng.py: what a returned derivation is.
use native.Mathlib.Nat.{mod-lt}
use python_rng_game_platform.Base.{
  ℕ, zero, suc, ◌+◌, ◌%◌, ◌<◌, ◌≡◌, refl, sym, ◌∙◌, List, arith, ltb, some, if◌then◌else◌, Bytes,
  Text, ok, >>=-eq-ok, ok_inj, ◌>>=◌,
}
use mathlib.Core.Path.{subst}
use python_rng_game_platform.Rng.Crypto.{Crypto}
use python_rng_game_platform.Rng.Encoding.{int_from_bytes}
use python_rng_game_platform.Rng.Types.{RewardBand, DailySpinDerivation, total_weight}
use python_rng_game_platform.Rng.Select.{select_daily_spin_reward}
use python_rng_game_platform.Rng.Select.Valid.{
  IsRewardMap, validate_reward_bands_iff, total_weight-pos,
}
use python_rng_game_platform.Rng.Select.Interval.{HoldsAt, select_HoldsAt}
use python_rng_game_platform.Rng.Messages.{
  MessageInput, validate_message, daily_spin_mapping_digest, daily_spin_derivation_message,
}
use python_rng_game_platform.Rng.Messages.Derivation.{valid_of_message}
use python_rng_game_platform.Rng.Derive.{
  DrawInput, message_input, accept, derive_loop, validate_draw, draw_limit, derive_daily_spin,
}
use python_rng_game_platform.Rng.Derive.Draws.{raw_at, FirstDraw, derive_loop-FirstDraw}

loop-valid :
    (c : Crypto) (seed : Bytes) (m : MessageInput) (bands : List RewardBand) (limit fuel k : ℕ)
    {d : DailySpinDerivation}
    → derive_loop c seed m bands limit fuel k ≡ ok (some d)
    → validate_message m ≡ ok tt
unfolding derive_loop
loop-valid c seed m bands limit zero k e = cc
loop-valid c seed m bands limit (suc fuel) k e =
    let built =
      >>=-eq-ok (daily_spin_derivation_message m k)
        (λ b.
          let digest = c.hmac_sha256 seed b in
          if ltb (int_from_bytes digest) limit
          then accept bands m.mapping_digest k digest
          else derive_loop c seed m bands limit fuel (k + 1))
        e in
    valid_of_message m k built.1

pub draw-map : (i : DrawInput) → validate_draw i ≡ ok tt → IsRewardMap i.reward_bands
unfolding validate_draw
draw-map i h = (validate_reward_bands_iff i.reward_bands).0 (ground arith)

-- The evidence `d` of a draw: the first HMAC digest under the rejection limit decides it, the
-- normalized value lies below the total weight, and the reward is the band that holds it.
pub record IsDraw (c : Crypto) (i : DrawInput) (d : DailySpinDerivation) : Type 0 where
  pub digested : daily_spin_mapping_digest c i.reward_bands ≡ ok d.mapping_digest
  pub is_map : IsRewardMap i.reward_bands
  pub first :
      FirstDraw c i.server_seed
        (message_input i d.mapping_digest)
        i.reward_bands
        (draw_limit i.reward_bands)
        0
        d
  pub normalized : d.normalized_value ≡ d.raw_value % total_weight i.reward_bands
  pub in_range : d.normalized_value < total_weight i.reward_bands
  pub held : HoldsAt i.reward_bands d.normalized_value d.reward

selected-HoldsAt :
    (bands : List RewardBand) (v : ℕ) (reward : RewardBand)
    → IsRewardMap bands
    → v < total_weight bands
    → select_daily_spin_reward bands v ≡ ok reward
    → HoldsAt bands v reward
selected-HoldsAt bands v reward m h e =
    let (band, chosen, holds) = select_HoldsAt bands v m h in
    subst (HoldsAt bands v) (ok_inj (sym chosen ∙ e)) holds

FirstDraw-IsDraw :
    (c : Crypto) (i : DrawInput) (digest : Text) (d : DailySpinDerivation)
    → daily_spin_mapping_digest c i.reward_bands ≡ ok digest
    → IsRewardMap i.reward_bands
    → FirstDraw c i.server_seed
        (message_input i digest)
        i.reward_bands
        (draw_limit i.reward_bands)
        0
        d
    → IsDraw c i d
FirstDraw-IsDraw c i digest d e m (k, reward, le, hit, chosen, same, before) =
    let below =
      mod-lt (raw_at c i.server_seed (message_input i digest) k)
        (total_weight-pos i.reward_bands m) in
    subst (IsDraw c i) (sym same) (record {
      digested = e;
      is_map = m;
      first = (k, reward, le, hit, chosen, refl, before);
      normalized = refl;
      in_range = below;
      held = selected-HoldsAt i.reward_bands _ reward m below chosen;
    })

pub derive-validated :
    (c : Crypto) (fuel : ℕ) (i : DrawInput) {d : DailySpinDerivation}
    → derive_daily_spin c fuel i ≡ ok (some d)
    → validate_draw i ≡ ok tt
unfolding derive_daily_spin
derive-validated c fuel i e =
    let run = λ (digest : Text).
      derive_loop c i.server_seed (message_input i digest) i.reward_bands
        (draw_limit i.reward_bands) fuel 0 in
    (>>=-eq-ok (validate_draw i) (λ _. daily_spin_mapping_digest c i.reward_bands >>= run) e).1

-- Whatever `derive_daily_spin` returns is the draw of its inputs.
pub derive_sound :
    (c : Crypto) (fuel : ℕ) (i : DrawInput) {d : DailySpinDerivation}
    → derive_daily_spin c fuel i ≡ ok (some d)
    → IsDraw c i d
unfolding derive_daily_spin
derive_sound c fuel i {d} e =
    let run = λ (digest : Text).
      derive_loop c i.server_seed (message_input i digest) i.reward_bands
        (draw_limit i.reward_bands) fuel 0 in
    let guards =
      >>=-eq-ok (validate_draw i) (λ _. daily_spin_mapping_digest c i.reward_bands >>= run) e in
    let digest = >>=-eq-ok (daily_spin_mapping_digest c i.reward_bands) run guards.2 in
    let m = message_input i digest.0 in
    let limit = draw_limit i.reward_bands in
    FirstDraw-IsDraw c i digest.0 d digest.1 (draw-map i guards.1) (
      derive_loop-FirstDraw c i.server_seed m i.reward_bands limit
        (loop-valid c i.server_seed m i.reward_bands limit fuel 0 digest.2) fuel 0 digest.2)
