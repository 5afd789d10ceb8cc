-- ===== src/Models/Rows.antt =====
-- The rows of app/models.py.
use python_rng_game_platform.Base.{ℕ, Bool, true, false, Option, Bytes, Text, List}
use python_rng_game_platform.Models.Json.{Fields}
use python_rng_game_platform.Models.Schemas.{StoredPayload}

pub data PlayerStatus : Type 0 where
  active inactive : PlayerStatus

pub data ConfigStatus : Type 0 where
  draft published retired : ConfigStatus

pub data SessionStatus : Type 0 where
  active completed expired cancelled : SessionStatus

pub data OutcomeStatus : Type 0 where
  accepted rejected : OutcomeStatus

pub data RewardStatus : Type 0 where
  issued claimed expired : RewardStatus

pub data ProofStatus : Type 0 where
  committed revealed expired cancelled : ProofStatus

pub record Player : Type 0 where
  pub id : ℕ
  pub display_name : Text
  pub public_label : Text
  pub status : PlayerStatus

pub record Game : Type 0 where
  pub id : ℕ
  pub key : Text
  pub is_active : Bool

pub record GameConfigVersion : Type 0 where
  pub id : ℕ
  pub game_id : ℕ
  pub version : ℕ
  pub status : ConfigStatus
  pub payload : StoredPayload

pub record GameSession : Type 0 where
  pub id : ℕ
  pub created_at : ℕ
  pub player_id : ℕ
  pub game_id : ℕ
  pub config_version_id : ℕ
  pub request_id : ℕ
  pub request_fingerprint : Text
  pub status : SessionStatus
  pub expires_at : ℕ
  pub ended_at : Option ℕ
  pub challenge : Fields

pub record Outcome : Type 0 where
  pub id : ℕ
  pub session_id : ℕ
  pub player_id : ℕ
  pub game_id : ℕ
  pub config_version_id : ℕ
  pub status : OutcomeStatus
  pub result : Fields

pub record Reward : Type 0 where
  pub id : ℕ
  pub created_at : ℕ
  pub outcome_id : Option ℕ
  pub settlement_recipient_id : Option ℕ
  pub player_id : ℕ
  pub status : RewardStatus
  pub value : ℕ
  pub claimed_at : Option ℕ

pub record FinalScore : Type 0 where
  pub id : ℕ
  pub player_id : ℕ
  pub game_id : ℕ
  pub session_id : ℕ
  pub outcome_id : ℕ
  pub config_version_id : ℕ
  pub period_start : ℕ
  pub completed_at : ℕ
  pub final_score : ℕ

-- The watermark of one game period: how many of its scores were inserted.
pub record LeaderboardProjectionRevision : Type 0 where
  pub game_id : ℕ
  pub period_start : ℕ
  pub revision : ℕ

-- One item of a payload's `tiers`. A rank that is missing or no integer is `none`, and one below
-- zero counts as zero, since ranks start at one; a value that is missing, no integer or below zero
-- is `none`.
pub record RewardTier : Type 0 where
  pub min_rank : Option ℕ
  pub max_rank : Option ℕ
  pub key : Option Text
  pub reward_value : Option ℕ

-- A payload: its `tiers` are `none` when they are no list.
pub record RewardTierConfig : Type 0 where
  pub id : ℕ
  pub game_id : ℕ
  pub version : ℕ
  pub tiers : Option (List RewardTier)
  pub published_at : ℕ

pub data SettlementStatus : Type 0 where
  processing completed : SettlementStatus

pub record SettlementRun : Type 0 where
  pub id : ℕ
  pub game_id : ℕ
  pub period_start : ℕ
  pub period_end : ℕ
  pub tier_config_id : ℕ
  pub tier_snapshot : Option (List RewardTier)
  pub status : SettlementStatus
  pub completed_at : Option ℕ

pub record SettlementRecipient : Type 0 where
  pub id : ℕ
  pub run_id : ℕ
  pub player_id : ℕ
  pub score_id : ℕ
  pub game_id : ℕ
  pub period_start : ℕ
  pub rank : ℕ
  pub tier_key : Text
  pub reward_value : ℕ

pub record AuditRecord : Type 0 where
  pub event_type : Text
  pub entity_type : Text
  pub entity_id : ℕ
  pub evidence : Fields

pub record AnalyticsEvent : Type 0 where
  pub event_key : Text
  pub event_type : Text
  pub player_id : ℕ
  pub payload : Fields

pub record FairnessProof : Type 0 where
  pub id : ℕ
  pub session_id : ℕ
  pub player_id : ℕ
  pub game_id : ℕ
  pub game_key : Text
  pub config_version_id : ℕ
  pub outcome_id : Option ℕ
  pub status : ProofStatus
  pub protocol_version : Text
  pub algorithm : Text
  pub server_seed_commitment : Text
  pub nonce : ℕ
  pub client_seed : Option Text
  pub evaluation_fingerprint : Option Text
  pub mapping_version : Text
  pub mapping_digest : Text
  pub raw_random_value : Option Text
  pub normalized_value : Option ℕ
  pub derivation_attempt : Option ℕ
  pub reward_key : Option Text
  pub reward_value : Option ℕ
  pub evaluated_at : Option ℕ
  pub server_seed_revealed : Option Text
  pub revealed_at : Option ℕ

pub record FairnessSeedCustody : Type 0 where
  pub proof_id : ℕ
  pub server_seed_material : Bytes

pub record FairnessProofEvent : Type 0 where
  pub proof_id : ℕ
  pub sequence : ℕ
  pub event_type : Text
  pub evidence_version : ℕ
  pub payload : Fields
  pub status : ProofStatus
  pub previous_evidence_hash : Option Text
  pub evidence_hash : Text
  pub created_at : ℕ

-- Enumerations are compared.
abbrev pub session_status_eq : SessionStatus → SessionStatus → Bool
session_status_eq SessionStatus.active SessionStatus.active = true
session_status_eq SessionStatus.completed SessionStatus.completed = true
session_status_eq SessionStatus.expired SessionStatus.expired = true
session_status_eq SessionStatus.cancelled SessionStatus.cancelled = true
session_status_eq _ _ = false

abbrev pub is_active_session : SessionStatus → Bool
is_active_session SessionStatus.active = true
is_active_session _ = false

abbrev pub is_active_player : PlayerStatus → Bool
is_active_player PlayerStatus.active = true
is_active_player PlayerStatus.inactive = false

abbrev pub is_published : ConfigStatus → Bool
is_published ConfigStatus.published = true
is_published _ = false

abbrev pub is_committed : ProofStatus → Bool
is_committed ProofStatus.committed = true
is_committed _ = false
