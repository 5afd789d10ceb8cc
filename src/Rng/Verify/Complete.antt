-- ===== src/Rng/Verify/Complete.antt =====
-- Honest proofs pass `verify_daily_spin_proof` of app/rng.py.
use python_rng_game_platform.Rng.Messages.{daily_spin_mapping_digest, daily_spin_mapping_bytes}
use python_rng_game_platform.Rng.Derive.Draws.{digest_at}
use mathlib.Core.Path.{subst}
use python_rng_game_platform.Base.{
  ℕ, ◌≡◌, refl, ap, true, some, arith, ==_refl, ==ˢ_refl, Bytes, Text, length, All, ok, >>=-eq-ok,
  any, not, ltb, [], ◌∷◌, false, ok_inj,
}
use python_rng_game_platform.Rng.Crypto.{Crypto}
use python_rng_game_platform.Rng.Encoding.{hex, is_hex_digit}
use python_rng_game_platform.Rng.Encoding.Laws.{IsByte, from_hex-hex, IsHexDigit, hex-IsHexDigit}
use python_rng_game_platform.Rng.Types.{DailySpinDerivation, DailySpinProof, validate_server_seed}
use python_rng_game_platform.Rng.Messages.Derivation.{hex-valid}
use python_rng_game_platform.Rng.Derive.{DrawInput, derive_daily_spin, message_input}
use python_rng_game_platform.Rng.Derive.Inputs.{derive-validated, IsDraw, derive_sound}
use python_rng_game_platform.Rng.Derive.FirstHit.{draw-supported}
use python_rng_game_platform.Rng.Verify.{
  server_seed_commitment, server_seed_from_hex, VerificationResult, verified, judge, redraw,
  check_commitment, recalculate, caught, verify_daily_spin_proof, compare_digest, is_ascii,
  judge_raw, judge_values,
}

-- The proof that publishes a draw: its inputs, its seed in hexadecimal and its evidence.
abbrev pub proof_of : Text → DrawInput → DailySpinDerivation → DailySpinProof
proof_of commitment i d = record {
  protocol_version = i.protocol_version;
  algorithm = i.algorithm;
  server_seed_commitment = commitment;
  server_seed_hex = hex i.server_seed;
  client_seed = i.client_seed;
  nonce = i.nonce;
  game_key = i.game_key;
  config_version_id = i.config_version_id;
  session_id = i.session_id;
  reward_bands = i.reward_bands;
  mapping_version = i.mapping_version;
  mapping_digest = d.mapping_digest;
  raw_digest_hex = d.raw_digest_hex;
  normalized_value = d.normalized_value;
  attempt = d.attempt;
  reward_key = d.reward.key;
  reward_value = d.reward.value;
}

abbrev pub accepted : VerificationResult
accepted = record { is_verified = true; code = verified }

-- Hexadecimal digits are ASCII.
hex_digit-ascii : (c : ℕ) → is_hex_digit c ≡ true → ltb c 128 ≡ true
unfolding is_hex_digit
hex_digit-ascii c h = ground arith

hex_digits-ascii : (t : Text) → All IsHexDigit t → any (λ c. not (ltb c 128)) t ≡ false
hex_digits-ascii [] h = refl
hex_digits-ascii (c ∷ t) h = rw (hex_digit-ascii c h.0) (hex_digits-ascii t h.1)

hex-ascii : (b : Bytes) → All IsByte b → is_ascii (hex b) ≡ true
hex-ascii b h = rw (hex_digits-ascii (hex b) (hex-IsHexDigit b h)) refl

compare_digest_self : (t : Text) → is_ascii t ≡ true → compare_digest t t ≡ ok true
compare_digest_self t h = rw (h, ==ˢ_refl t) refl

judge_values_self :
    (t : Text) (i : DrawInput) (d : DailySpinDerivation)
    → judge_values (proof_of t i d) d ≡ accepted
unfolding judge_values
judge_values_self t i d =
    rw
      (==_refl d.normalized_value, ==_refl d.attempt, ==ˢ_refl d.reward.key, ==_refl d.reward.value)
      refl

judge_self :
    (t : Text) (i : DrawInput) (d : DailySpinDerivation)
    → is_ascii d.mapping_digest ≡ true
    → is_ascii d.raw_digest_hex ≡ true
    → judge (proof_of t i d) d ≡ ok accepted
unfolding judge judge_raw
judge_self t i d mapped raw =
    rw
      (
        compare_digest_self d.mapping_digest mapped,
        compare_digest_self d.raw_digest_hex raw,
        judge_values_self t i d,
      )
      refl

seed-length : (seed : Bytes) → validate_server_seed seed ≡ ok tt → length seed ≡ 32
unfolding validate_server_seed
seed-length seed h = ground arith

from_hex-seed :
    (seed : Bytes)
    → All IsByte seed
    → validate_server_seed seed ≡ ok tt
    → server_seed_from_hex (hex seed) ≡ ok seed
unfolding server_seed_from_hex
from_hex-seed seed bytes h =
    rw (hex-valid seed (seed-length seed h) bytes, from_hex-hex seed bytes) refl

commitment-seed :
    (c : Crypto) (seed : Bytes) {t : Text}
    → server_seed_commitment c seed ≡ ok t
    → validate_server_seed seed ≡ ok tt
unfolding server_seed_commitment
commitment-seed c seed e =
    (>>=-eq-ok (validate_server_seed seed) (λ _. ok (hex (c.sha256 seed))) e).1

commitment-ascii :
    (c : Crypto) (seed : Bytes) {t : Text}
    → server_seed_commitment c seed ≡ ok t
    → is_ascii t ≡ true
unfolding server_seed_commitment
commitment-ascii c seed {t} e =
    let made = ok_inj (>>=-eq-ok (validate_server_seed seed) (λ _. ok (hex (c.sha256 seed))) e).2 in
    subst (λ x. is_ascii x ≡ true) made (hex-ascii (c.sha256 seed) (c.sha256-IsByte seed))

-- The digests of a draw are hexadecimal.
mapping-ascii :
    (c : Crypto) (i : DrawInput) (d : DailySpinDerivation)
    → IsDraw c i d
    → is_ascii d.mapping_digest ≡ true
unfolding daily_spin_mapping_digest
mapping-ascii c i d draw =
    let (bytes, built, made) =
      >>=-eq-ok (daily_spin_mapping_bytes i.reward_bands) (λ b. ok (hex (c.sha256 b)))
        draw.digested in
    subst (λ x. is_ascii x ≡ true) (ok_inj made)
      (hex-ascii (c.sha256 bytes) (c.sha256-IsByte bytes))

raw-ascii :
    (c : Crypto) (i : DrawInput) (d : DailySpinDerivation)
    → IsDraw c i d
    → is_ascii d.raw_digest_hex ≡ true
raw-ascii c i d draw =
    let (k, reward, le, hit, chosen, same, before) = draw.first in
    let digest = digest_at c i.server_seed (message_input i d.mapping_digest) k in
    rw (ap (λ (x : DailySpinDerivation). x.raw_digest_hex) same)
      (hex-ascii digest (c.hmac_sha256-IsByte i.server_seed _))

recalculate-proof_of :
    (c : Crypto) (fuel : ℕ) (i : DrawInput) {t : Text} {d : DailySpinDerivation}
    → All IsByte i.server_seed
    → server_seed_commitment c i.server_seed ≡ ok t
    → derive_daily_spin c fuel i ≡ ok (some d)
    → recalculate c fuel (proof_of t i d) ≡ ok (some accepted)
unfolding recalculate check_commitment redraw
recalculate-proof_of c fuel i {t} {d} bytes committed drawn =
    let draw = derive_sound c fuel i drawn in
    rw
      (
        from_hex-seed i.server_seed bytes (commitment-seed c i.server_seed committed),
        committed,
        compare_digest_self t (commitment-ascii c i.server_seed committed),
        drawn,
        judge_self t i d (mapping-ascii c i d draw) (raw-ascii c i d draw),
      )
      refl

-- The proof of any draw from a seed of bytes is verified: with the commitment of the seed and the
-- evidence that `derive_daily_spin` returned, the verdict is positive, on the same fuel.
pub verify_complete :
    (c : Crypto) (fuel : ℕ) (i : DrawInput) {t : Text} {d : DailySpinDerivation}
    → All IsByte i.server_seed
    → server_seed_commitment c i.server_seed ≡ ok t
    → derive_daily_spin c fuel i ≡ ok (some d)
    → verify_daily_spin_proof c fuel (proof_of t i d) ≡ ok (some accepted)
unfolding verify_daily_spin_proof
verify_complete c fuel i {t} {d} bytes committed drawn =
    let supported = (draw-supported i (derive-validated c fuel i drawn)).0 in
    rw (supported, verify_daily_spin_proof)
      (ap caught (recalculate-proof_of c fuel i bytes committed drawn))
