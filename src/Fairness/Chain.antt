-- ===== src/Fairness/Chain.antt =====
-- `verify_fairness_event_chain` of app/services/fairness.py.
pub mod Laws
use python_rng_game_platform.Base.{
  ℕ, suc, Bool, true, false, not, ◌&&◌, ◌||◌, List, [], ◌∷◌, Option, none, some, ◌==◌, ◌==ˢ◌,
  if◌then◌else◌, Text,
}
use python_rng_game_platform.Rng.Verify.{VerificationCode}
use python_rng_game_platform.Models.Equality.{fields_eq}
use python_rng_game_platform.Models.Rows.{FairnessProof, FairnessProofEvent}
use python_rng_game_platform.FairnessEvents.{
  EventFacts, fairness_event_hash, fairness_event_hash_v1, commit_event_payload,
  revealed_event_payload,
}
use python_rng_game_platform.Platform.{Platform}
use python_rng_game_platform.Fairness.Evaluate.{is_revealed}

-- The codes of a chain's verdict, and those that the recalculation answers.
pub data ChainCode : Type 0 where
  recalculated : VerificationCode → ChainCode
  event_chain_missing event_chain_link_mismatch unsupported_event_version : ChainCode
  event_hash_mismatch commit_payload_mismatch event_terminal_state_mismatch : ChainCode
  revealed_payload_mismatch verified : ChainCode

-- The verdict: whether the chain is verified, and its code.
pub record Verdict : Type 0 where
  pub is_verified : Bool
  pub code : ChainCode

abbrev pub mismatch : ChainCode → Verdict
mismatch code = record { is_verified = false; code = code }

abbrev pub facts_of : FairnessProofEvent → EventFacts
facts_of e = record {
  proof_id = e.proof_id;
  sequence = e.sequence;
  event_type = e.event_type;
  status = e.status;
  created_at = e.created_at;
  previous_evidence_hash = e.previous_evidence_hash;
  payload = e.payload;
}

-- The hash that an event of a known version should have.
unfoldable pub expected_hash : Platform → FairnessProofEvent → Option Text
expected_hash platform e =
    if e.evidence_version == 1
    then some (fairness_event_hash_v1 platform (facts_of e))
    else if e.evidence_version == 2
    then some (fairness_event_hash platform (facts_of e))
    else none

abbrev pub same_hash : Option Text → Option Text → Bool
same_hash none none = true
same_hash (some a) (some b) = a ==ˢ b
same_hash _ _ = false

-- The tests on one event of the loop, at its place and behind the hash of the event before it.
unfoldable pub check_event : Platform → ℕ → Option Text → FairnessProofEvent → Option ChainCode
unfolding expected_hash
check_event platform sequence previous e =
    if not (e.sequence == sequence) || not (same_hash e.previous_evidence_hash previous)
    then some event_chain_link_mismatch
    else elim (expected_hash platform e) [
      | none ↦ some unsupported_event_version
      | some expected ↦ if expected ==ˢ e.evidence_hash then none else some event_hash_mismatch
    ]

-- The loop from `sequence`: the code of the first fault, if there is one.
unfoldable pub check_links : Platform → ℕ → Option Text → List FairnessProofEvent → Option ChainCode
unfolding check_event
check_links platform sequence previous [] = none
check_links platform sequence previous (e ∷ es) =
    let rest = check_links platform (suc sequence) (some e.evidence_hash) es in
    elim (check_event platform sequence previous e) [ none ↦ rest | some code ↦ some code ]

-- `events[-1]`
abbrev pub last_of : FairnessProofEvent → List FairnessProofEvent → FairnessProofEvent
last_of e [] = e
last_of e (x ∷ xs) = last_of x xs

unfoldable pub check_final : FairnessProof → FairnessProofEvent → Verdict
check_final p final =
    if not (is_revealed final.status)
    then mismatch event_terminal_state_mismatch
    else if final.evidence_version == 2 && not (fields_eq final.payload (revealed_event_payload p))
    then mismatch revealed_payload_mismatch
    else record { is_verified = true; code = verified }

-- The tests behind the loop, on the proof's own columns.
unfoldable pub check_snapshot :
    FairnessProof → FairnessProofEvent → List FairnessProofEvent → Verdict
unfolding check_final
check_snapshot p e es =
    if e.evidence_version == 2 && not (fields_eq e.payload (commit_event_payload p))
    then mismatch commit_payload_mismatch
    else if is_revealed p.status
    then check_final p (last_of e es)
    else record { is_verified = true; code = verified }

unfoldable pub verify_fairness_event_chain :
    Platform → FairnessProof → List FairnessProofEvent → Verdict
unfolding check_links check_snapshot
verify_fairness_event_chain platform p [] = mismatch event_chain_missing
verify_fairness_event_chain platform p (e ∷ es) = elim (check_links platform 0 none (e ∷ es)) [
  | some code ↦ mismatch code
  | none ↦ check_snapshot p e es
]
