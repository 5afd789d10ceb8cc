-- ===== src/Fairness/Retrieve.antt =====
-- `RevealedFairnessProof`, `retrieve_fairness_proof` and `verify_fairness_proof` of
-- app/services/fairness.py, and `_owned_outcome` of app/services/_common.py.
use python_rng_game_platform.Base.{
  ℕ, List, Option, none, some, not, if◌then◌else◌, Text, Result, ok, err, raise_if, ◌>>=◌, ◌>>◌,
  false,
}
use python_rng_game_platform.Rng.Types.{FairnessError, RewardBand, DailySpinProof}
use python_rng_game_platform.Rng.Verify.{VerificationResult, verify_daily_spin_proof}
use python_rng_game_platform.Models.Errors.{
  Error, fairness, not_found, invalid_transition, still_drawing,
}
use python_rng_game_platform.Models.Rows.{Outcome, FairnessProof, ProofStatus}
use python_rng_game_platform.Store.{Db, get_outcome, get_config_by_id}
use python_rng_game_platform.Store.Fairness.{
  get_fairness_proof_by_outcome, list_fairness_proof_events,
}
use python_rng_game_platform.Platform.{Platform}
use python_rng_game_platform.Sessions.{owned_session}
use python_rng_game_platform.Fairness.{reward_bands_for}
use python_rng_game_platform.Fairness.Evaluate.{require, is_revealed}
use python_rng_game_platform.Fairness.Chain.{recalculated, Verdict, verify_fairness_event_chain}

-- A revealed proof, with no value missing.
pub record RevealedFairnessProof : Type 0 where
  pub proof_id : ℕ
  pub outcome_id : ℕ
  pub status : ProofStatus
  pub protocol_version : Text
  pub algorithm : Text
  pub server_seed_commitment : Text
  pub server_seed_revealed : Text
  pub client_seed : Text
  pub nonce : ℕ
  pub game_key : Text
  pub session_id : ℕ
  pub config_version_id : ℕ
  pub mapping_version : Text
  pub mapping_digest : Text
  pub raw_random_value : Text
  pub normalized_value : ℕ
  pub derivation_attempt : ℕ
  pub reward_key : Text
  pub reward_value : ℕ
  pub evaluated_at : ℕ
  pub revealed_at : ℕ

unfoldable pub as_revealed_proof : FairnessProof → Result Error RevealedFairnessProof
as_revealed_proof p = do
  raise_if (not (is_revealed p.status)) invalid_transition
  outcome_id ← require p.outcome_id invalid_transition
  seed ← require p.server_seed_revealed invalid_transition
  client_seed ← require p.client_seed invalid_transition
  raw ← require p.raw_random_value invalid_transition
  normalized ← require p.normalized_value invalid_transition
  attempt ← require p.derivation_attempt invalid_transition
  key ← require p.reward_key invalid_transition
  value ← require p.reward_value invalid_transition
  evaluated ← require p.evaluated_at invalid_transition
  revealed ← require p.revealed_at invalid_transition
  ok (record {
    proof_id = p.id;
    outcome_id = outcome_id;
    status = p.status;
    protocol_version = p.protocol_version;
    algorithm = p.algorithm;
    server_seed_commitment = p.server_seed_commitment;
    server_seed_revealed = seed;
    client_seed = client_seed;
    nonce = p.nonce;
    game_key = p.game_key;
    session_id = p.session_id;
    config_version_id = p.config_version_id;
    mapping_version = p.mapping_version;
    mapping_digest = p.mapping_digest;
    raw_random_value = raw;
    normalized_value = normalized;
    derivation_attempt = attempt;
    reward_key = key;
    reward_value = value;
    evaluated_at = evaluated;
    revealed_at = revealed;
  })

-- `_owned_outcome`: the outcome, through its owner's session.
unfoldable pub owned_outcome : ℕ → ℕ → Db → Result Error Outcome
owned_outcome outcome_id owner_id db = do
  outcome ← require (get_outcome outcome_id db) not_found
  s ← owned_session outcome.session_id owner_id db
  ok outcome

-- A finalized proof with the reward bands of its configuration.
pub record Retrieved : Type 0 where
  pub proof : RevealedFairnessProof
  pub bands : List RewardBand

unfoldable pub retrieve_fairness_proof : ℕ → ℕ → Db → Result Error Retrieved
unfolding as_revealed_proof owned_outcome
retrieve_fairness_proof outcome_id owner_id db = do
  outcome ← owned_outcome outcome_id owner_id db
  p ← require (get_fairness_proof_by_outcome outcome.id db) not_found
  revealed ← as_revealed_proof p
  config ← require (get_config_by_id p.config_version_id db) not_found
  bands ← reward_bands_for p.game_key config
  ok (record { proof = revealed; bands = bands })

abbrev pub public_proof : Retrieved → DailySpinProof
public_proof r = record {
  protocol_version = r.proof.protocol_version;
  algorithm = r.proof.algorithm;
  server_seed_commitment = r.proof.server_seed_commitment;
  server_seed_hex = r.proof.server_seed_revealed;
  client_seed = r.proof.client_seed;
  nonce = r.proof.nonce;
  game_key = r.proof.game_key;
  config_version_id = r.proof.config_version_id;
  session_id = r.proof.session_id;
  reward_bands = r.bands;
  mapping_version = r.proof.mapping_version;
  mapping_digest = r.proof.mapping_digest;
  raw_digest_hex = r.proof.raw_random_value;
  normalized_value = r.proof.normalized_value;
  attempt = r.proof.derivation_attempt;
  reward_key = r.proof.reward_key;
  reward_value = r.proof.reward_value;
}

-- The verdict on a public proof; `none` is a draw that goes on past the fuel.
abbrev pub recalculation :
    Result FairnessError (Option VerificationResult) → Result Error VerificationResult
recalculation (err e) = err (fairness e)
recalculation (ok none) = err still_drawing
recalculation (ok (some r)) = ok r

-- The recalculation comes before the chain.
unfoldable pub judge_chain :
    Platform → FairnessProof → RevealedFairnessProof → VerificationResult → Db → Verdict
judge_chain platform p proof result db =
    if not result.is_verified
    then record { is_verified = false; code = recalculated result.code }
    else verify_fairness_event_chain platform p (list_fairness_proof_events proof.proof_id db)

-- What a verification answers.
pub record Verification : Type 0 where
  pub retrieved : Retrieved
  pub verdict : Verdict

unfoldable pub verify_fairness_proof : Platform → ℕ → ℕ → Db → Result Error Verification
unfolding retrieve_fairness_proof judge_chain
verify_fairness_proof platform outcome_id owner_id db = do
  retrieved ← retrieve_fairness_proof outcome_id owner_id db
  p ← require (get_fairness_proof_by_outcome outcome_id db) not_found
  result ←
      recalculation (verify_daily_spin_proof platform.crypto platform.fuel (public_proof retrieved))
  ok (record { retrieved = retrieved; verdict = judge_chain platform p retrieved.proof result db })
