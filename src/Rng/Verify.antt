-- ===== src/Rng/Verify.antt =====
-- `verify_daily_spin_proof` of app/rng.py: recalculating a public proof.
pub mod Sound
pub mod Complete
use python_rng_game_platform.Base.{
  ℕ, Bool, ltb, any, true, false, not, ◌&&◌, ◌||◌, Option, none, some, ◌==◌, ◌==ˢ◌, if◌then◌else◌,
  Bytes, Text, Result, ok, err, ◌>>=◌, ◌>>◌,
}
use mathlib.Core.Option
use python_rng_game_platform.Rng.Crypto.{Crypto}
use python_rng_game_platform.Rng.Encoding.{hex, from_hex}
use python_rng_game_platform.Rng.Types.{
  FairnessError, assertion, type_error, unsupported_fairness_version, DailySpinDerivation,
  DailySpinProof, validate_server_seed, validate_digest, validate_supported_v1,
}
use python_rng_game_platform.Rng.Derive.{DrawInput, derive_daily_spin}

unfoldable pub server_seed_commitment : Crypto → Bytes → Result FairnessError Text
server_seed_commitment c seed = do validate_server_seed seed; ok (hex (c.sha256 seed))

unfoldable pub server_seed_from_hex : Text → Result FairnessError Bytes
server_seed_from_hex text = do validate_digest text; ok (from_hex text)

-- The stable codes of a verdict; `raised` is the code of a `FairnessError`.
pub data VerificationCode : Type 0 where
  raised : FairnessError → VerificationCode
  commitment_mismatch mapping_digest_mismatch raw_digest_mismatch : VerificationCode
  normalized_value_mismatch attempt_mismatch reward_mismatch verified : VerificationCode

pub record VerificationResult : Type 0 where
  pub is_verified : Bool
  pub code : VerificationCode

abbrev pub refused : VerificationCode → VerificationResult
refused code = record { is_verified = false; code = code }

abbrev pub draw_input : DailySpinProof → Bytes → DrawInput
draw_input p seed = record {
  server_seed = seed;
  client_seed = p.client_seed;
  nonce = p.nonce;
  config_version_id = p.config_version_id;
  session_id = p.session_id;
  reward_bands = p.reward_bands;
  game_key = p.game_key;
  protocol_version = p.protocol_version;
  algorithm = p.algorithm;
  mapping_version = p.mapping_version;
}

-- `hmac.compare_digest` on texts, which compares ASCII only.
abbrev pub is_ascii : Text → Bool
is_ascii t = not (any (λ c. not (ltb c 128)) t)

abbrev pub compare_digest : Text → Text → Result FairnessError Bool
compare_digest a b = if is_ascii a && is_ascii b then ok (a ==ˢ b) else err type_error

-- The comparisons of the numbers and the reward.
unfoldable pub judge_values : DailySpinProof → DailySpinDerivation → VerificationResult
judge_values p d =
    if not (d.normalized_value == p.normalized_value)
    then refused normalized_value_mismatch
    else if not (d.attempt == p.attempt)
    then refused attempt_mismatch
    else if not (d.reward.key ==ˢ p.reward_key) || not (d.reward.value == p.reward_value)
    then refused reward_mismatch
    else record { is_verified = true; code = verified }

unfoldable pub judge_raw :
    DailySpinProof → DailySpinDerivation → Result FairnessError VerificationResult
unfolding judge_values
judge_raw p d = do
  same ← compare_digest d.raw_digest_hex p.raw_digest_hex
  ok (if not same then refused raw_digest_mismatch else judge_values p d)

-- The comparisons behind the `try`.
unfoldable pub judge :
    DailySpinProof → DailySpinDerivation → Result FairnessError VerificationResult
unfolding judge_raw
judge p d = do
  same ← compare_digest d.mapping_digest p.mapping_digest
  if not same then ok (refused mapping_digest_mismatch) else judge_raw p d

abbrev pub judge_drawn :
    DailySpinProof → Option DailySpinDerivation → Result FairnessError (Option VerificationResult)
judge_drawn p none = ok none
judge_drawn p (some d) = do result ← judge p d; ok (some result)

-- Drawing again and comparing; `none` means that the draw ran out of fuel.
unfoldable pub redraw :
    Crypto → ℕ → DailySpinProof → Bytes → Result FairnessError (Option VerificationResult)
redraw c fuel p seed = do
  derivation ← derive_daily_spin c fuel (draw_input p seed)
  judge_drawn p derivation

unfoldable pub check_commitment :
    Crypto → ℕ → DailySpinProof → Bytes → Text → Result FairnessError (Option VerificationResult)
check_commitment c fuel p seed commitment = do
  same ← compare_digest commitment p.server_seed_commitment
  if not same then ok (some (refused commitment_mismatch)) else redraw c fuel p seed

-- The body of the second `try` with what follows it.
unfoldable pub recalculate :
    Crypto → ℕ → DailySpinProof → Result FairnessError (Option VerificationResult)
unfolding judge redraw check_commitment
recalculate c fuel p = do
  seed ← server_seed_from_hex p.server_seed_hex
  commitment ← server_seed_commitment c seed
  check_commitment c fuel p seed commitment

-- `except FairnessError`, which an `AssertionError` and a `TypeError` pass.
abbrev pub caught :
    Result FairnessError (Option VerificationResult)
    → Result FairnessError (Option VerificationResult)
caught (ok r) = ok r
caught (err assertion) = err assertion
caught (err type_error) = err type_error
caught (err e) = ok (some (refused (raised e)))

unfoldable pub verify_daily_spin_proof :
    Crypto → ℕ → DailySpinProof → Result FairnessError (Option VerificationResult)
unfolding recalculate
verify_daily_spin_proof c fuel p =
    elim (validate_supported_v1 p.game_key p.protocol_version p.algorithm p.mapping_version) [
      | err _ ↦ ok (some (refused (raised unsupported_fairness_version)))
      | ok _ ↦ caught (recalculate c fuel p)
    ]
