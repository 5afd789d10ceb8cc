-- ===== src/Rng/Uniform/Provider.antt =====
-- `HmacOutcomeProvider.uniform` of app/rng.py: which draw it returns, and that it always ends.
use native.Mathlib.Nat.{mod-lt}
use python_rng_game_platform.Base.{
  ℕ, zero, suc, ◌+◌, ◌%◌, ◌^◌, ◌≤◌, ◌<◌, ◌≡◌, ◌≢◌, inl, inr, arith, ltb, leb, Bool-cases, none,
  some, Bytes, Text, ok,
}
use python_rng_game_platform.Rng.Uniform.Counting.{extend_run}
use python_rng_game_platform.Rng.Crypto.{Crypto}
use python_rng_game_platform.Rng.Encoding.{int_from_bytes, hex}
use python_rng_game_platform.Rng.Uniform.{
  rejection_limit, DerivedValue, uniform_base, digest_at, uniform_loop, uniform,
}

module _ (c : Crypto) (key base : Bytes) (limit bound : ℕ) where
  abbrev pub raw_at : ℕ → ℕ
  raw_at k = int_from_bytes (digest_at c key base k)

  -- The draw at `k`, and no counter from `start` up to `k` gave an acceptable one.
  abbrev pub FirstDraw : ℕ → DerivedValue → Type 0
  FirstDraw start d =
      (k : ℕ) × (start ≤ k)
      × (k < 2 ^ 32)
      × (raw_at k < limit)
      × (d.value ≡ raw_at k % bound)
      × (d.digest_hex ≡ hex (digest_at c key base k))
      × ((j : ℕ) → start ≤ j → j < k → limit ≤ raw_at j)

  uniform_loop-FirstDraw :
      (fuel counter : ℕ) {d : DerivedValue}
      → uniform_loop c key base limit bound fuel counter ≡ ok (some d)
      → FirstDraw counter d
  unfolding uniform_loop
  uniform_loop-FirstDraw zero counter e = cc
  uniform_loop-FirstDraw (suc fuel) counter {d} e = elim (Bool-cases (leb (2 ^ 32) counter)) [
    | inl over ↦ ground arith
    | inr below ↦ elim (Bool-cases (ltb (raw_at counter) limit)) [
      | inl hit ↦ (
        counter,
        omega arith,
        ground arith,
        ground arith,
        ground arith,
        ground arith,
        λ j h l. omega arith,
      )
      | inr miss ↦
          let next = uniform_loop-FirstDraw fuel (counter + 1) {d = d} (ground arith) in
          (
            next.0,
            omega arith,
            next.2,
            next.3,
            next.4,
            next.5,
            extend_run raw_at limit counter next.0 (ground arith) next.6,
          )
    ]
  ]

  uniform_loop-total :
      (fuel counter : ℕ)
      → 2 ^ 32 < fuel + counter
      → counter ≤ 2 ^ 32
      → uniform_loop c key base limit bound fuel counter ≢ ok none
  unfolding uniform_loop
  uniform_loop-total zero counter h l = absurd (omega arith)
  uniform_loop-total (suc fuel) counter h l = ground (arith, uniform_loop-total fuel (counter + 1))

-- Whatever `uniform` returns is below the bound: it is the residue of the first of the HMAC digests,
-- at the counters 0, 1, 2, …, that lies under the rejection limit, and carries that digest.
pub uniform_sound :
    (c : Crypto) (fuel : ℕ) (key : Bytes) (sid : ℕ) (game : Text) (cid : ℕ) (purpose : Text)
    (bound : ℕ) {d : DerivedValue}
    → uniform c fuel key sid game cid purpose bound ≡ ok (some d)
    → (d.value < bound)
      × FirstDraw c key
          (uniform_base sid game cid purpose)
          (rejection_limit (2 ^ 256) bound)
          bound
          0
          d
unfolding uniform
uniform_sound c fuel key sid game cid purpose bound {d} e = elim (Bool-cases (leb bound 0)) [
  | inl none_fits ↦ ground arith
  | inr fits ↦
      let first =
        uniform_loop-FirstDraw c key (uniform_base sid game cid purpose)
          (rejection_limit (2 ^ 256) bound) bound fuel 0 {d = d} (rw fits at e) in
      (rw first.4 (mod-lt _ (ground arith)), first)
]

-- With more than 2 ^ 32 rounds of fuel `uniform` ends: it returns a value or raises.
pub uniform_total :
    (c : Crypto) (fuel : ℕ) (key : Bytes) (sid : ℕ) (game : Text) (cid : ℕ) (purpose : Text)
    (bound : ℕ)
    → 2 ^ 32 < fuel
    → uniform c fuel key sid game cid purpose bound ≢ ok none
unfolding uniform
uniform_total c fuel key sid game cid purpose bound h = elim (Bool-cases (leb bound 0)) [
  | inl none_fits ↦ ground arith
  | inr fits ↦ rw fits (
      uniform_loop-total c key (uniform_base sid game cid purpose) (rejection_limit (2 ^ 256) bound)
        bound fuel 0 (omega arith) (omega arith))
]
