-- ===== src/Fairness.antt =====
-- app/services/fairness.py: `_fairness_reward_bands` and `commit_fairness`.
pub mod Commit
pub mod Evaluate
pub mod Chain
pub mod Retrieve
pub mod Honest
use python_rng_game_platform.Base.{
  ℕ, Bool, not, Option, none, some, ◌==◌, if◌then◌else◌, Bytes, Text, codes, List, Result, ok, err,
  ◌>>=◌,
}
use python_rng_game_platform.Rng.Types.{
  FairnessError, RewardBand, protocol_version_v1, algorithm_hmac_sha256,
  daily_spin_mapping_version_v1,
}
use python_rng_game_platform.Rng.Verify.{server_seed_commitment}
use python_rng_game_platform.Rng.Messages.{daily_spin_mapping_digest}
use python_rng_game_platform.Models.Errors.{
  Error, fairness, invalid_play, invalid_transition, session_expired,
}
use python_rng_game_platform.Models.Json.{Fields}
use python_rng_game_platform.Models.Rows.{
  Game, GameConfigVersion, GameSession, FairnessProof, ProofStatus, FairnessProofEvent,
  is_active_session,
}
use python_rng_game_platform.GameRules.{fairness_reward_bands}
use python_rng_game_platform.GameRules.Registry.{fairness_rules_for}
use python_rng_game_platform.Store.{
  Db, Reply, rolled_back, committed, get_game_by_id, get_config_by_id,
  lock_fairness_proof_by_session, add_fairness_proof_event,
}
use python_rng_game_platform.Store.Fairness.{add_fairness_proof, add_fairness_seed_custody}
use python_rng_game_platform.FairnessEvents.{
  EventFacts, fairness_event_hash, commit_event_payload, proof_status_text,
}
use python_rng_game_platform.Platform.{Platform}
use python_rng_game_platform.Sessions.{finalize_expired_session, Finalized, owned_session}
use python_rng_game_platform.Claims.{as_invalid_play}
use python_rng_game_platform.Gameplay.{Bound}

-- `_fairness_reward_bands`
unfoldable pub reward_bands_for : Text → GameConfigVersion → Result Error (List RewardBand)
reward_bands_for game_key config =
    as_invalid_play (fairness_rules_for game_key >>= λ _. fairness_reward_bands config)

-- A `FairnessError` that nothing catches.
abbrev pub uncaught : {A : Type 0} → Result FairnessError A → Result Error A
uncaught (err e) = err (fairness e)
uncaught (ok a) = ok a

-- The arguments of a commitment: the request, the clock, the key that the new proof is given, and
-- the bytes that `create_server_seed` draws.
pub record CommitCall : Type 0 where
  pub session_id : ℕ
  pub owner_id : ℕ
  pub now : ℕ
  pub proof_id : ℕ
  pub seed : Bytes

-- The game and the configuration that the session is bound to.
abbrev pub commit_bound : Option Game → Option GameConfigVersion → Result Error Bound
commit_bound (some game) (some config) =
    if config.game_id == game.id
    then ok (record { game = game; config = config })
    else err invalid_play
commit_bound _ _ = err invalid_play

abbrev pub new_proof : CommitCall → GameSession → Bound → Text → Text → FairnessProof
new_proof call s bound commitment digest = record {
  id = call.proof_id;
  session_id = s.id;
  player_id = call.owner_id;
  game_id = bound.game.id;
  game_key = bound.game.key;
  config_version_id = bound.config.id;
  outcome_id = none;
  status = ProofStatus.committed;
  protocol_version = protocol_version_v1;
  algorithm = algorithm_hmac_sha256;
  server_seed_commitment = commitment;
  nonce = 0;
  client_seed = none;
  evaluation_fingerprint = none;
  mapping_version = daily_spin_mapping_version_v1;
  mapping_digest = digest;
  raw_random_value = none;
  normalized_value = none;
  derivation_attempt = none;
  reward_key = none;
  reward_value = none;
  evaluated_at = none;
  server_seed_revealed = none;
  revealed_at = none;
}

unfoldable pub commit_proof :
    Platform → CommitCall → GameSession → Bound → Result Error FairnessProof
unfolding reward_bands_for
commit_proof platform call s bound = do
  bands ← reward_bands_for bound.game.key bound.config
  commitment ← uncaught (server_seed_commitment platform.crypto call.seed)
  digest ← uncaught (daily_spin_mapping_digest platform.crypto bands)
  ok (new_proof call s bound commitment digest)

-- The first event of a proof's chain.
abbrev pub commit_facts : FairnessProof → ℕ → EventFacts
commit_facts p now = record {
  proof_id = p.id;
  sequence = 0;
  event_type = codes "committed";
  status = ProofStatus.committed;
  created_at = now;
  previous_evidence_hash = none;
  payload = commit_event_payload p;
}

-- An event of evidence version 2 from what its hash covers.
abbrev pub event_of : Platform → EventFacts → FairnessProofEvent
event_of platform e = record {
  proof_id = e.proof_id;
  sequence = e.sequence;
  event_type = e.event_type;
  evidence_version = 2;
  payload = e.payload;
  status = e.status;
  previous_evidence_hash = e.previous_evidence_hash;
  evidence_hash = fairness_event_hash platform e;
  created_at = e.created_at;
}

unfoldable pub record_commit : Platform → CommitCall → FairnessProof → Db → Result Error Db
record_commit platform call p db = do
  with_proof ← add_fairness_proof p db
  with_seed ← add_fairness_seed_custody p.id call.seed with_proof
  add_fairness_proof_event (event_of platform (commit_facts p call.now)) with_seed

-- The session has no proof yet.
unfoldable pub commit_fresh :
    Platform → CommitCall → GameSession → Bound → Db → Db → Reply FairnessProof
unfolding commit_proof record_commit
commit_fresh platform call s bound db work = elim (commit_proof platform call s bound) [
  | err e ↦ rolled_back e db
  | ok p ↦ elim (record_commit platform call p work) [
    | err e ↦ rolled_back e db
    | ok after ↦ committed p after
  ]
]

-- A proof that the session has already is answered as it is.
unfoldable pub commit_bound_session :
    Platform → CommitCall → GameSession → Bound → Db → Db → Reply FairnessProof
unfolding commit_fresh
commit_bound_session platform call s bound db work =
    elim (lock_fairness_proof_by_session s.id work) [
      | some existing ↦ committed existing work
      | none ↦ commit_fresh platform call s bound db work
    ]

unfoldable pub commit_active : Platform → CommitCall → GameSession → Db → Db → Reply FairnessProof
unfolding commit_bound_session
commit_active platform call s db work =
    elim (commit_bound (get_game_by_id s.game_id work)
      (get_config_by_id s.config_version_id work)) [
        | err e ↦ rolled_back e db
        | ok bound ↦ commit_bound_session platform call s bound db work
      ]

unfoldable pub commit_finalized :
    Platform → CommitCall → GameSession → Db → Finalized → Reply FairnessProof
unfolding commit_active
commit_finalized platform call s db fin =
    if fin.changed
    then record { result = err session_expired; durable = fin.work }
    else if not (is_active_session s.status)
    then rolled_back invalid_transition db
    else commit_active platform call s db fin.work

unfoldable pub commit_owned : Platform → CommitCall → GameSession → Db → Reply FairnessProof
unfolding commit_finalized
commit_owned platform call s db = elim (finalize_expired_session platform s call.now db) [
  | err e ↦ rolled_back e db
  | ok fin ↦ commit_finalized platform call s db fin
]

unfoldable pub commit_fairness : Platform → CommitCall → Db → Reply FairnessProof
unfolding commit_owned
commit_fairness platform call db = elim (owned_session call.session_id call.owner_id db) [
  | err e ↦ rolled_back e db
  | ok s ↦ commit_owned platform call s db
]
