-- ===== src/Rng/Messages/Mapping.antt =====
-- The hashed bytes of a reward map in app/rng.py determine the map.
use python_rng_game_platform.Base.{
  ℕ, ◌+◌, ◌≡◌, refl, sym, ◌∙◌, List, [], ◌∷◌, ◌++◌, arith, Bytes, codes, length, append_cancel_left,
  cons_eq, ok, >>=-eq-ok, ok_inj,
}
use python_rng_game_platform.Rng.Encoding.{decimal}
use python_rng_game_platform.Rng.Types.{RewardBand, validate_reward_bands}
use python_rng_game_platform.Rng.Messages.{band_lines, all_band_lines, daily_spin_mapping_bytes}
use python_rng_game_platform.Rng.Messages.Fields.{number_field, sized_field_inj}

band_eq : (a b : RewardBand) → a.key ≡ b.key → a.weight ≡ b.weight → a.value ≡ b.value → a ≡ b
band_eq a b k w v = λ i. record { key = k i; weight = w i; value = v i }

past_index :
    (index : ℕ) {r s : Bytes}
    → codes "reward[" ++ (decimal index ++ r) ≡ codes "reward[" ++ (decimal index ++ s)
    → r ≡ s
past_index index e = append_cancel_left (decimal index) (append_cancel_left (codes "reward[") e)

band_lines_inj :
    (index : ℕ) (a b : RewardBand) {r s : Bytes}
    → band_lines index a r ≡ band_lines index b s
    → (a ≡ b) × (r ≡ s)
unfolding band_lines
band_lines_inj index a b e =
    let keys = sized_field_inj (codes "].key=") a.key b.key (past_index index e) in
    let weights = number_field (codes "].weight=") a.weight b.weight (past_index index keys.1) in
    let values = number_field (codes "].value=") a.value b.value (past_index index weights.1) in
    (band_eq a b keys.0 weights.0 values.0, values.1)

all_band_lines_inj :
    (index : ℕ) (xs ys : List RewardBand)
    → length xs ≡ length ys
    → all_band_lines index xs ≡ all_band_lines index ys
    → xs ≡ ys
unfolding all_band_lines
all_band_lines_inj index [] [] l e = refl
all_band_lines_inj index [] (y ∷ ys) l e = absurd (omega arith)
all_band_lines_inj index (x ∷ xs) [] l e = absurd (omega arith)
all_band_lines_inj index (x ∷ xs) (y ∷ ys) l e =
    let head = band_lines_inj index x y e in
    cons_eq head.0 (all_band_lines_inj (index + 1) xs ys (omega arith) head.1)

-- Two reward maps that are encoded to the same bytes are the same map, with the same bands in the
-- same order.
pub mapping_bytes_inj :
    (xs ys : List RewardBand) {m : Bytes}
    → daily_spin_mapping_bytes xs ≡ ok m
    → daily_spin_mapping_bytes ys ≡ ok m
    → xs ≡ ys
unfolding daily_spin_mapping_bytes
mapping_bytes_inj xs ys hx hy =
    let px = >>=-eq-ok (validate_reward_bands xs) _ hx in
    let py = >>=-eq-ok (validate_reward_bands ys) _ hy in
    let body =
      append_cancel_left (codes "RNG-GAME-PLATFORM-DAILY-SPIN-MAP/1\n")
        (ok_inj (px.2 ∙ sym py.2)) in
    let counts = number_field (codes "reward_count=") (length xs) (length ys) body in
    all_band_lines_inj 0 xs ys counts.0 counts.1
