-- ===== src/Rng/Derive/FirstHit.antt =====
-- `derive_daily_spin` of app/rng.py: when it returns.
use python_rng_game_platform.Base.{ℕ, ◌%◌, ◌≤◌, ◌<◌, ◌≡◌, arith, some, Text, ok}
use native.Mathlib.Nat.{mod-lt}
use python_rng_game_platform.Rng.Crypto.{Crypto}
use python_rng_game_platform.Rng.Types.{
  RewardBand, total_weight, validate_client_seed, validate_supported_v1, validate_nonce,
}
use python_rng_game_platform.Rng.Select.Valid.{total_weight-pos}
use python_rng_game_platform.Rng.Select.Interval.{select_HoldsAt}
use python_rng_game_platform.Rng.Messages.{daily_spin_mapping_digest, validate_message}
use python_rng_game_platform.Rng.Messages.Derivation.{message_of_parts, digest_is_hex}
use python_rng_game_platform.Rng.Derive.{
  DrawInput, message_input, derivation, draw_limit, validate_draw, derive_daily_spin,
}
use python_rng_game_platform.Rng.Derive.Draws.{digest_at, raw_at, derive_loop-returns}
use python_rng_game_platform.Rng.Derive.Inputs.{draw-map}

pub draw-supported :
    (i : DrawInput)
    → validate_draw i ≡ ok tt
    → (validate_supported_v1 i.game_key i.protocol_version i.algorithm i.mapping_version ≡ ok tt)
      × (validate_nonce i.nonce ≡ ok tt)
unfolding validate_draw
draw-supported i h = (ground arith, ground arith)

draw-message :
    (c : Crypto) (i : DrawInput) {digest : Text}
    → validate_draw i ≡ ok tt
    → validate_client_seed i.client_seed ≡ ok i.client_seed
    → daily_spin_mapping_digest c i.reward_bands ≡ ok digest
    → validate_message (message_input i digest) ≡ ok tt
draw-message c i {digest} h seed e =
    let parts = draw-supported i h in
    message_of_parts (message_input i digest) i.protocol_version i.algorithm i.mapping_version
      parts.0 seed parts.1 (digest_is_hex c i.reward_bands e)

-- Valid inputs and enough fuel: if attempt `k` is the first whose raw value lies under the rejection
-- limit, then every run with more than `k` rounds returns, with the evidence of attempt `k`.
pub derive_returns :
    (c : Crypto) (fuel : ℕ) (i : DrawInput) (digest : Text) (k : ℕ)
    → validate_draw i ≡ ok tt
    → validate_client_seed i.client_seed ≡ ok i.client_seed
    → daily_spin_mapping_digest c i.reward_bands ≡ ok digest
    → k < fuel
    → let raw = raw_at c i.server_seed (message_input i digest) in
      raw k < draw_limit i.reward_bands
      → ((j : ℕ)
          → j < k
          → draw_limit i.reward_bands ≤ raw_at c i.server_seed (message_input i digest) j)
      → (reward : RewardBand) × (derive_daily_spin c fuel i
          ≡ ok (
              some (
                derivation i.reward_bands digest k
                  (digest_at c i.server_seed (message_input i digest) k)
                  reward)))
unfolding derive_daily_spin
derive_returns c fuel i digest k valid seed e lt hit before =
    let m = message_input i digest in
    let map = draw-map i valid in
    let (reward, chosen, holds) =
      select_HoldsAt i.reward_bands (raw_at c i.server_seed m k % total_weight i.reward_bands) map
        (mod-lt (raw_at c i.server_seed m k) (total_weight-pos i.reward_bands map)) in
    (
      reward,
      rw (valid, e)
          (derive_loop-returns c i.server_seed m i.reward_bands (draw_limit i.reward_bands)
            (draw-message c i valid seed e) fuel 0 k reward (omega arith) (omega arith) hit
            (λ j h l. before j l) chosen),
    )
