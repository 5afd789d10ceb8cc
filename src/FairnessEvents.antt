-- ===== src/FairnessEvents.antt =====
-- app/fairness_events.py: the evidence of a fairness proof's life, and its hash.
pub mod Payloads
use python_rng_game_platform.Base.{ℕ, ◌++◌, Option, Text, codes, [], some}
use python_rng_game_platform.Rng.Encoding.{hex, uuid_str, decimal}
use python_rng_game_platform.Models.Json.{
  text, number, instant, optional_text, optional_number, optional_instant, object, Fields, end,
  field,
}
use python_rng_game_platform.Models.Rows.{FairnessProof, ProofStatus}
use python_rng_game_platform.Store.Evidence.{uuid_json, optional_uuid}
use python_rng_game_platform.Platform.{Platform}

abbrev pub proof_status_text : ProofStatus → Text
proof_status_text ProofStatus.committed = codes "committed"
proof_status_text ProofStatus.revealed = codes "revealed"
proof_status_text ProofStatus.expired = codes "expired"
proof_status_text ProofStatus.cancelled = codes "cancelled"

-- The hashed fields of an event of evidence version 2.
pub record EventFacts : Type 0 where
  pub proof_id : ℕ
  pub sequence : ℕ
  pub event_type : Text
  pub status : ProofStatus
  pub created_at : ℕ
  pub previous_evidence_hash : Option Text
  pub payload : Fields

abbrev pub event_evidence : EventFacts → Fields
event_evidence e = field (codes "created_at") (instant e.created_at) (
    field (codes "event_type") (text e.event_type) (
      field (codes "payload") (object e.payload) (
        field (codes "previous_evidence_hash") (optional_text e.previous_evidence_hash) (
          field (codes "proof_id") (uuid_json e.proof_id) (
            field (codes "sequence") (number e.sequence)
              (field (codes "status") (text (proof_status_text e.status)) end))))))

unfoldable pub fairness_event_hash : Platform → EventFacts → Text
fairness_event_hash platform e = hex (
    platform.crypto.sha256
      (codes "RNG-GAME-PLATFORM-PVF-EVENT/2\n" ++ platform.dumps (event_evidence e)))

-- `previous_evidence_hash or ''`
abbrev pub hash_or_empty : Option Text → Text
hash_or_empty Option.none = []
hash_or_empty (Option.some h) = h

abbrev pub event_text_v1 : Platform → EventFacts → Text
event_text_v1 platform e =
    codes "RNG-GAME-PLATFORM-PVF-EVENT/1\n"
    ++ codes "proof_id="
    ++ uuid_str e.proof_id
    ++ codes "\nsequence="
    ++ decimal e.sequence
    ++ codes "\nevent_type="
    ++ e.event_type
    ++ codes "\nstatus="
    ++ proof_status_text e.status
    ++ codes "\ncreated_at="
    ++ platform.timestamp e.created_at
    ++ codes "\nprevious_evidence_hash="
    ++ hash_or_empty e.previous_evidence_hash
    ++ codes "\n"

-- Evidence version 1 leaves the payload out.
unfoldable pub fairness_event_hash_v1 : Platform → EventFacts → Text
fairness_event_hash_v1 platform e = hex (platform.crypto.sha256 (event_text_v1 platform e))

-- `{**commit_event_payload(proof), ...}`, with `more` behind.
abbrev pub commit_payload_with : FairnessProof → Fields → Fields
commit_payload_with p more = field (codes "algorithm") (text p.algorithm) (
    field (codes "config_version_id") (uuid_json p.config_version_id) (
      field (codes "game_key") (text p.game_key) (
        field (codes "mapping_digest") (text p.mapping_digest) (
          field (codes "mapping_version") (text p.mapping_version) (
            field (codes "nonce") (number p.nonce) (
              field (codes "protocol_version") (text p.protocol_version) (
                field (codes "server_seed_commitment") (text p.server_seed_commitment)
                  (field (codes "session_id") (uuid_json p.session_id) more))))))))

unfoldable pub commit_event_payload : FairnessProof → Fields
commit_event_payload p = commit_payload_with p end

unfoldable pub terminal_event_payload : FairnessProof → ℕ → Fields
terminal_event_payload p now = commit_payload_with p (field (codes "terminal_at") (instant now) end)

unfoldable pub revealed_event_payload : FairnessProof → Fields
revealed_event_payload p = commit_payload_with p (
    field (codes "client_seed") (optional_text p.client_seed) (
      field (codes "derivation_attempt") (optional_number p.derivation_attempt) (
        field (codes "evaluated_at") (optional_instant p.evaluated_at) (
          field (codes "evaluation_fingerprint") (optional_text p.evaluation_fingerprint) (
            field (codes "normalized_value") (optional_number p.normalized_value) (
              field (codes "outcome_id") (optional_uuid p.outcome_id) (
                field (codes "raw_random_value") (optional_text p.raw_random_value) (
                  field (codes "revealed_at") (optional_instant p.revealed_at) (
                    field (codes "reward_key") (optional_text p.reward_key) (
                      field (codes "reward_value") (optional_number p.reward_value) (
                        field (codes "server_seed_revealed") (optional_text p.server_seed_revealed)
                          end)))))))))))
