-- ===== src/Rng/Derive/Draws.antt =====
-- The loop of `derive_daily_spin` in app/rng.py: the draw that it returns.
use python_rng_game_platform.Base.{
  ℕ, zero, suc, ◌+◌, ◌%◌, ◌≤◌, ◌<◌, ◌≡◌, refl, sym, false, if◌then◌else◌, lt→ltb, le→ltb, List, inl,
  inr, arith, ltb, Bool-cases, some, Bytes, Text, ok, >>=-eq-ok, ok_inj, some_inj,
}
use python_rng_game_platform.Rng.Crypto.{Crypto}
use python_rng_game_platform.Rng.Encoding.{int_from_bytes}
use python_rng_game_platform.Rng.Types.{RewardBand, DailySpinDerivation, total_weight}
use python_rng_game_platform.Rng.Uniform.Counting.{extend_run}
use python_rng_game_platform.Rng.Select.{select_daily_spin_reward}
use python_rng_game_platform.Rng.Messages.{MessageInput, message_bytes, validate_message}
use python_rng_game_platform.Rng.Messages.Derivation.{message_of_valid}
use native.Mathlib.Decide.{dec_lt}
use python_rng_game_platform.Rng.Derive.{derivation, accept, derive_loop}

accept-eq-ok :
    (bands : List RewardBand) (mapping_digest : Text) (k : ℕ) (digest : Bytes)
    {d : DailySpinDerivation}
    → accept bands mapping_digest k digest ≡ ok (some d)
    → (reward : RewardBand) × (select_daily_spin_reward bands
          (int_from_bytes digest % total_weight bands)
        ≡ ok reward)
      × (d ≡ derivation bands mapping_digest k digest reward)
unfolding accept
accept-eq-ok bands mapping_digest k digest e =
    let chosen =
      >>=-eq-ok (select_daily_spin_reward bands (int_from_bytes digest % total_weight bands))
        (λ reward. ok (some (derivation bands mapping_digest k digest reward))) e in
    (chosen.0, chosen.1, some_inj (ok_inj (sym chosen.2)))

module _ (c : Crypto) (seed : Bytes) (m : MessageInput) where
  -- The digest of an attempt and the raw value that it spells.
  abbrev pub digest_at : ℕ → Bytes
  digest_at k = c.hmac_sha256 seed (message_bytes m k)

  abbrev pub raw_at : ℕ → ℕ
  raw_at k = int_from_bytes (digest_at k)

  -- The draw of attempt `k`, the first from `start` whose raw value lies under the limit.
  abbrev pub FirstDraw : List RewardBand → ℕ → ℕ → DailySpinDerivation → Type 0
  FirstDraw bands limit start d =
      (k : ℕ) × (reward : RewardBand) × (start ≤ k)
      × (raw_at k < limit)
      × (select_daily_spin_reward bands (raw_at k % total_weight bands) ≡ ok reward)
      × (d ≡ derivation bands m.mapping_digest k (digest_at k) reward)
      × ((j : ℕ) → start ≤ j → j < k → limit ≤ raw_at j)

  module _ (bands : List RewardBand) (limit : ℕ) (valid : validate_message m ≡ ok tt) where
    loop_step :
        (fuel k : ℕ)
        → derive_loop c seed m bands limit (suc fuel) k ≡ (
            if ltb (raw_at k) limit
            then accept bands m.mapping_digest k (digest_at k)
            else derive_loop c seed m bands limit fuel (k + 1))
    unfolding derive_loop
    loop_step fuel k = rw (message_of_valid m k valid) refl

    -- Whatever the loop returns is the first acceptable draw.
    pub derive_loop-FirstDraw :
        (fuel start : ℕ) {d : DailySpinDerivation}
        → derive_loop c seed m bands limit fuel start ≡ ok (some d)
        → FirstDraw bands limit start d
    derive_loop-FirstDraw zero start e = unfold derive_loop in cc
    derive_loop-FirstDraw (suc fuel) start {d} e = elim (Bool-cases (ltb (raw_at start) limit)) [
      | inl hit ↦
          let chosen =
            accept-eq-ok bands m.mapping_digest start (digest_at start)
              (rw (loop_step fuel start, hit) at e) in
          (
            start,
            chosen.0,
            omega arith,
            ground arith,
            chosen.1,
            chosen.2,
            λ j h l. absurd (omega arith),
          )
      | inr miss ↦
          let next =
            derive_loop-FirstDraw fuel (start + 1) {d = d} (rw (loop_step fuel start, miss) at e) in
          (
            next.0,
            next.1,
            omega arith,
            next.3,
            next.4,
            next.5,
            extend_run raw_at limit start next.0 (ground arith) next.6,
          )
    ]

    -- If some attempt within the fuel has an acceptable raw value, the loop returns at the first.
    pub derive_loop-returns :
        (fuel start k : ℕ) (reward : RewardBand)
        → start ≤ k
        → k < start + fuel
        → raw_at k < limit
        → ((j : ℕ) → start ≤ j → j < k → limit ≤ raw_at j)
        → select_daily_spin_reward bands (raw_at k % total_weight bands) ≡ ok reward
        → derive_loop c seed m bands limit fuel start
          ≡ ok (some (derivation bands m.mapping_digest k (digest_at k) reward))
    unfolding accept
    derive_loop-returns zero start k reward le lt hit before e = absurd (omega arith)
    derive_loop-returns (suc fuel) start k reward le lt hit before e = elim (dec_lt start k) [
      | yes later ↦
          let miss : ltb (raw_at start) limit ≡ false =
            le→ltb limit (raw_at start) (before start (omega arith) later) in
          rw (loop_step fuel start, miss)
            (derive_loop-returns fuel (start + 1) k reward (omega arith) (omega arith) hit
              (λ j h l. before j (omega arith) l) e)
      | no at ↦
          let here : start ≡ k = omega arith in
          rw (here, loop_step fuel k, lt→ltb (raw_at k) limit hit, accept, e) refl
    ]
