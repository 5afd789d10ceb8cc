-- ===== src/Rng/Uniform/Counting.antt =====
-- How many numbers below a bound pass a test, and why rejection sampling favours no residue.
use native.Mathlib.Nat.{
  add-zero, add-suc, suc-mul, zero-mul, mul-add-mod_self_right, mod-eq_of_lt, mod-lt, div-add-mod',
}
use native.Mathlib.Decide.{dec_lt}
use python_rng_game_platform.Base.{
  ℕ, zero, suc, ◌+◌, ◌*◌, ◌/◌, ◌%◌, ◌≤◌, ◌<◌, ◌≡◌, refl, sym, ap, ◌∙◌, Bool, true, false, arith,
}
use python_rng_game_platform.Rng.Uniform.{rejection_limit}

abbrev pub indicator : Bool → ℕ
indicator true = 1
indicator false = 0

-- How many numbers below `n` pass `p`.
unfoldable pub count_below : ℕ → (ℕ → Bool) → ℕ
count_below zero p = 0
count_below (suc n) p = count_below n p + indicator (p n)

pub count_below-zero : (p : ℕ → Bool) → count_below 0 p ≡ 0
unfolding count_below
count_below-zero p = refl

pub count_below-add :
    (m n : ℕ) (p : ℕ → Bool)
    → count_below (m + n) p ≡ count_below m p + count_below n (λ i. p (m + i))
unfolding count_below
count_below-add m zero p = rw (add-zero m) (omega arith)
count_below-add m (suc n) p = rw (add-suc m n) (omega (arith, count_below-add m n p))

pub count_below-congr :
    (n : ℕ) (p q : ℕ → Bool) → ((i : ℕ) → i < n → p i ≡ q i) → count_below n p ≡ count_below n q
unfolding count_below
count_below-congr zero p q h = refl
count_below-congr (suc n) p q h =
    rw (h n (omega arith), count_below-congr n p q (λ i l. h i (omega arith))) refl

pub count_below_all : (n : ℕ) (p : ℕ → Bool) → ((i : ℕ) → i < n → p i ≡ true) → count_below n p ≡ n
unfolding count_below
count_below_all zero p h = refl
count_below_all (suc n) p h =
    rw (h n (omega arith)) (omega (arith, count_below_all n p (λ i l. h i (omega arith))))

pub count_below_none :
    (n : ℕ) (p : ℕ → Bool) → ((i : ℕ) → i < n → p i ≡ false) → count_below n p ≡ 0
unfolding count_below
count_below_none zero p h = refl
count_below_none (suc n) p h =
    rw (h n (omega arith)) (omega (arith, count_below_none n p (λ i l. h i (omega arith))))

mod_shift : (q n i : ℕ) → i < n → (q * n + i) % n ≡ i
mod_shift q n i h = mul-add-mod_self_right q n i ∙ mod-eq_of_lt h

-- Over whole periods of `n`, each residue comes up equally often.
pub count_below-mod :
    (q n : ℕ) (p : ℕ → Bool) → count_below (q * n) (λ r. p (r % n)) ≡ q * count_below n p
unfolding count_below
count_below-mod zero n p = rw (zero-mul n, zero-mul (count_below n p)) refl
count_below-mod (suc q) n p =
    rw
      (
        suc-mul q n,
        count_below-add (q * n) n (λ r. p (r % n)),
        count_below-mod q n p,
        count_below-congr n (λ i. p ((q * n + i) % n)) p (λ i h. ap p (mod_shift q n i h)),
      )
      (sym (suc-mul q (count_below n p)))

-- The limit is a whole number of periods.
pub rejection_limit-mul : (range bound : ℕ) → rejection_limit range bound ≡ range / bound * bound
unfolding rejection_limit
rejection_limit-mul range bound = omega (arith, div-add-mod' range bound)

-- Of `range` raw values fewer than `bound` are rejected.
pub rejection_limit_bounds :
    (range bound : ℕ)
    → 0 < bound
    → (rejection_limit range bound ≤ range) × (range < rejection_limit range bound + bound)
unfolding rejection_limit
rejection_limit_bounds range bound h = (omega arith, omega (arith, mod-lt range h))

-- One more number at the front of a run on which a bound holds.
pub extend_run :
    (raw : ℕ → ℕ) (limit start k : ℕ)
    → limit ≤ raw start
    → ((j : ℕ) → start + 1 ≤ j → j < k → limit ≤ raw j)
    → (j : ℕ) → start ≤ j
    → j < k
    → limit ≤ raw j
extend_run raw limit start k here later j h l = elim (dec_lt start j) [
  | yes behind ↦ later j (omega arith) l
  | no at ↦ let e : j ≡ start = omega arith in rw e here
]
