-- ===== src/Rng/Verify/Sound.antt =====
-- What a positive verdict of `verify_daily_spin_proof` in app/rng.py establishes.
use mathlib.Core.Path.{subst}
use python_rng_game_platform.Base.{
  ℕ, ◌≡◌, refl, sym, ap, ◌∙◌, true, Option, none, some, inl, inr, arith, ==ˢ-sound, Bytes, Text,
  Result, ok, err, >>=-eq-ok, ok_inj, some_inj, Result-cases, ◌>>=◌, Bool-cases, ◌⊎◌, ◌≢◌, not,
  if◌then◌else◌, Bool, false,
}
use python_rng_game_platform.Rng.Crypto.{Crypto}
use python_rng_game_platform.Rng.Encoding.{hex, from_hex}
use python_rng_game_platform.Rng.Types.{
  FairnessError, DailySpinDerivation, DailySpinProof, validate_server_seed, validate_digest,
  validate_supported_v1, assertion, type_error,
}
use python_rng_game_platform.Rng.Derive.{derive_daily_spin}
use python_rng_game_platform.Rng.Derive.Inputs.{IsDraw, derive_sound}
use python_rng_game_platform.Rng.Verify.{
  server_seed_commitment, server_seed_from_hex, VerificationResult, draw_input, judge, redraw,
  check_commitment, recalculate, caught, verify_daily_spin_proof, compare_digest, judge_raw,
  judge_values, judge_drawn, VerificationCode, refused, mapping_digest_mismatch,
  raw_digest_mismatch, commitment_mismatch,
}

-- A derivation and a proof record the same draw.
pub record Agrees (p : DailySpinProof) (d : DailySpinDerivation) : Type 0 where
  pub mapping_digest : d.mapping_digest ≡ p.mapping_digest
  pub raw_digest : d.raw_digest_hex ≡ p.raw_digest_hex
  pub normalized : d.normalized_value ≡ p.normalized_value
  pub attempts : d.attempt ≡ p.attempt
  pub key : d.reward.key ≡ p.reward_key
  pub value : d.reward.value ≡ p.reward_value

-- A comparison that answers yes compared equal texts.
compare_digest-same : (a b : Text) → compare_digest a b ≡ ok true → a ≡ b
compare_digest-same a b e = ==ˢ-sound a b (ground arith)

-- What follows a comparison got a yes for equal texts, or a no.
after_compare_digest :
    {A : Type 0} (a b : Text) (rest : Bool → Result FairnessError A) {r : A}
    → (compare_digest a b >>= rest) ≡ ok r
    → ((a ≡ b) × (rest true ≡ ok r)) ⊎ (rest false ≡ ok r)
after_compare_digest a b rest {r} e =
    let (same, compared, e1) = >>=-eq-ok (compare_digest a b) rest e in
    elim (Bool-cases same) [
      | inl equal ↦ inl (compare_digest-same a b (compared ∙ ap ok equal), rw equal at e1)
      | inr other ↦ inr (rw other at e1)
    ]

refused-verified :
    (code : VerificationCode) {r : VerificationResult} → refused code ≡ r → r.is_verified ≢ true
refused-verified code {r} e v = ground arith

judge_raw-verified :
    (p : DailySpinProof) (d : DailySpinDerivation) {r : VerificationResult}
    → judge_raw p d ≡ ok r
    → r.is_verified ≡ true
    → (d.raw_digest_hex ≡ p.raw_digest_hex) × (judge_values p d ≡ r)
unfolding judge_raw
judge_raw-verified p d {r} e v =
    elim (after_compare_digest d.raw_digest_hex p.raw_digest_hex
      (λ same. ok (if not same then refused raw_digest_mismatch else judge_values p d)) e) [
        | inl (same, rest) ↦ (same, ok_inj rest)
        | inr other ↦ absurd (refused-verified raw_digest_mismatch (ok_inj other) v)
      ]

judge-verified :
    (p : DailySpinProof) (d : DailySpinDerivation) {r : VerificationResult}
    → judge p d ≡ ok r
    → r.is_verified ≡ true
    → (d.mapping_digest ≡ p.mapping_digest) × (judge_raw p d ≡ ok r)
unfolding judge
judge-verified p d {r} e v =
    elim (after_compare_digest d.mapping_digest p.mapping_digest
      (λ same. if not same then ok (refused mapping_digest_mismatch) else judge_raw p d) e) [
        | inl both ↦ both
        | inr other ↦ absurd (refused-verified mapping_digest_mismatch (ok_inj other) v)
      ]

judge-Agrees :
    (p : DailySpinProof) (d : DailySpinDerivation) {r : VerificationResult}
    → judge p d ≡ ok r
    → r.is_verified ≡ true
    → Agrees p d
unfolding judge_values
judge-Agrees p d {r} e v =
    let (mapped, raw) = judge-verified p d {r = r} e v in
    let (raw_same, valued) = judge_raw-verified p d {r = r} raw v in
    let good : (judge_values p d).is_verified ≡ true =
      ap (λ (x : VerificationResult). x.is_verified) valued ∙ v in
    record {
      mapping_digest = mapped;
      raw_digest = raw_same;
      normalized = ground arith;
      attempts = ground arith;
      key = ==ˢ-sound _ _ (ground arith);
      value = ground arith;
    }

-- The seed that a proof reveals hashes to the proof's commitment, and drawing from it again gives
-- what the proof records.
abbrev pub IsGenuine : Crypto → ℕ → DailySpinProof → Type 0
IsGenuine c fuel p =
    (hex (c.sha256 (from_hex p.server_seed_hex)) ≡ p.server_seed_commitment)
    × ((d : DailySpinDerivation) × (derive_daily_spin c fuel
            (draw_input p (from_hex p.server_seed_hex))
          ≡ ok (some d))
        × IsDraw c (draw_input p (from_hex p.server_seed_hex)) d
        × Agrees p d)

judge_drawn-inv :
    (p : DailySpinProof) (o : Option DailySpinDerivation) {r : VerificationResult}
    → judge_drawn p o ≡ ok (some r)
    → (d : DailySpinDerivation) × (o ≡ some d) × (judge p d ≡ ok r)
judge_drawn-inv p none e = cc
judge_drawn-inv p (some d) e =
    let (result, judged, e1) = >>=-eq-ok (judge p d) (λ x. ok (some x)) e in
    (d, refl, judged ∙ ap ok (some_inj (ok_inj e1)))

redraw-genuine :
    (c : Crypto) (fuel : ℕ) (p : DailySpinProof) (seed : Bytes) {r : VerificationResult}
    → redraw c fuel p seed ≡ ok (some r)
    → r.is_verified ≡ true
    → (d : DailySpinDerivation) × (derive_daily_spin c fuel (draw_input p seed) ≡ ok (some d))
      × IsDraw c (draw_input p seed) d
      × Agrees p d
unfolding redraw
redraw-genuine c fuel p seed {r} e v =
    let drawn = >>=-eq-ok (derive_daily_spin c fuel (draw_input p seed)) (judge_drawn p) e in
    let judged = judge_drawn-inv p drawn.0 {r = r} drawn.2 in
    let returned : derive_daily_spin c fuel (draw_input p seed) ≡ ok (some judged.0) =
      drawn.1 ∙ ap ok judged.1 in
    (
      judged.0,
      returned,
      derive_sound c fuel (draw_input p seed) returned,
      judge-Agrees p judged.0 {r = r} judged.2 v,
    )

check_commitment-verified :
    (c : Crypto) (fuel : ℕ) (p : DailySpinProof) (seed : Bytes) (commitment : Text)
    {r : VerificationResult}
    → check_commitment c fuel p seed commitment ≡ ok (some r)
    → r.is_verified ≡ true
    → (commitment ≡ p.server_seed_commitment) × (redraw c fuel p seed ≡ ok (some r))
unfolding check_commitment
check_commitment-verified c fuel p seed commitment {r} e v =
    elim (after_compare_digest commitment p.server_seed_commitment
      (λ same. if not same then ok (some (refused commitment_mismatch)) else redraw c fuel p seed)
      e) [
        | inl both ↦ both
        | inr other ↦ absurd (refused-verified commitment_mismatch (some_inj (ok_inj other)) v)
      ]

from_hex-eq :
    (text : Text) {seed : Bytes} → server_seed_from_hex text ≡ ok seed → seed ≡ from_hex text
unfolding server_seed_from_hex
from_hex-eq text {seed} e =
    sym (ok_inj (>>=-eq-ok (validate_digest text) (λ _. ok (from_hex text)) e).2)

commitment-eq :
    (c : Crypto) (seed : Bytes) {t : Text}
    → server_seed_commitment c seed ≡ ok t
    → hex (c.sha256 seed) ≡ t
unfolding server_seed_commitment
commitment-eq c seed e =
    ok_inj (>>=-eq-ok (validate_server_seed seed) (λ _. ok (hex (c.sha256 seed))) e).2

recalculate-IsGenuine :
    (c : Crypto) (fuel : ℕ) (p : DailySpinProof) {r : VerificationResult}
    → recalculate c fuel p ≡ ok (some r)
    → r.is_verified ≡ true
    → IsGenuine c fuel p
unfolding recalculate
recalculate-IsGenuine c fuel p {r} e v =
    let continue =
      λ (seed : Bytes). server_seed_commitment c seed >>= check_commitment c fuel p seed in
    let read = >>=-eq-ok (server_seed_from_hex p.server_seed_hex) continue e in
    let hashed =
      >>=-eq-ok (server_seed_commitment c read.0) (check_commitment c fuel p read.0) read.2 in
    let checked = check_commitment-verified c fuel p read.0 hashed.0 {r = r} hashed.2 v in
    subst
      (λ (seed : Bytes).
        (hex (c.sha256 seed) ≡ p.server_seed_commitment)
        × ((d : DailySpinDerivation) × (derive_daily_spin c fuel (draw_input p seed) ≡ ok (some d))
            × IsDraw c (draw_input p seed) d
            × Agrees p d))
      (from_hex-eq p.server_seed_hex read.1)
      (
        commitment-eq c read.0 hashed.1 ∙ checked.0,
        redraw-genuine c fuel p read.0 {r = r} checked.1 v,
      )

caught-verified :
    (m : Result FairnessError (Option VerificationResult)) {r : VerificationResult}
    → caught m ≡ ok (some r)
    → r.is_verified ≡ true
    → m ≡ ok (some r)
caught-verified (ok o) e v = e
caught-verified (err assertion) e v = cc
caught-verified (err type_error) e v = cc
caught-verified (err x) e v = ground arith

-- A proof that is verified is genuine: its revealed seed hashes to its commitment, and the draw from
-- that seed returns the recorded mapping digest, raw digest, normalized value, attempt and reward.
pub verify_sound :
    (c : Crypto) (fuel : ℕ) (p : DailySpinProof) {r : VerificationResult}
    → verify_daily_spin_proof c fuel p ≡ ok (some r)
    → r.is_verified ≡ true
    → IsGenuine c fuel p
unfolding verify_daily_spin_proof
verify_sound c fuel p {r} e v =
    elim (Result-cases
      (validate_supported_v1 p.game_key p.protocol_version p.algorithm p.mapping_version)) [
        | inl (u, good) ↦
            recalculate-IsGenuine c fuel p {r = r}
              (caught-verified (recalculate c fuel p) (rw (good, verify_daily_spin_proof) at e) v) v
        | inr (x, bad) ↦ ground arith
      ]
