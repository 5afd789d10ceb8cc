-- ===== src/Sessions.antt =====
-- How sessions end: app/session_transitions.py and app/services/session_termination.py.
pub mod Endings
pub mod Create
pub mod Cancel
pub mod Recover
use python_rng_game_platform.Base.{
  ℕ, suc, ◌+◌, Bool, true, false, not, ◌&&◌, ◌||◌, List, [], ◌∷◌, Option, none, some, ltb, ◌==◌,
  if◌then◌else◌, Text, Result, ok, err, raise_if, ◌>>=◌, ◌>>◌,
}
use python_rng_game_platform.Models.Errors.{Error, invalid_transition, not_found, forbidden}
use python_rng_game_platform.Models.Rows.{
  GameSession, SessionStatus, FairnessProof, FairnessProofEvent, ProofStatus, is_active_session,
  is_committed,
}
use python_rng_game_platform.Store.{
  Db, lock_session, put_session, lock_fairness_proof_by_session, put_proof,
  lock_latest_fairness_proof_event, delete_fairness_seed_custody, add_fairness_proof_event,
}
use python_rng_game_platform.FairnessEvents.{
  EventFacts, fairness_event_hash, terminal_event_payload, proof_status_text,
}
use python_rng_game_platform.Platform.{Platform}

abbrev pub ended : SessionStatus → ℕ → GameSession → GameSession
ended status now s = record s { status = status; ended_at = some now }

-- `expire_if_due`: the session as it is afterwards; the answer is whether it was due.
unfoldable pub is_due : GameSession → ℕ → Bool
is_due s now = not (not (is_active_session s.status) || ltb now s.expires_at)

unfoldable pub expire_if_due : GameSession → ℕ → GameSession
expire_if_due s now = if is_due s now then ended SessionStatus.expired now s else s

-- The tables once `expire_if_due` has run: the row is written when it changed.
unfoldable pub after_expiry : GameSession → ℕ → Db → Db
unfolding expire_if_due is_due
after_expiry s now db = if is_due s now then put_session (expire_if_due s now) db else db

unfoldable pub cancel_active : GameSession → ℕ → Result Error GameSession
cancel_active s now = do
  raise_if (not (is_active_session s.status)) invalid_transition
  ok (ended SessionStatus.cancelled now s)

-- `status not in (EXPIRED, CANCELLED)`
abbrev pub is_unrevealed_end : ProofStatus → Bool
is_unrevealed_end ProofStatus.expired = true
is_unrevealed_end ProofStatus.cancelled = true
is_unrevealed_end _ = false

-- The event that retires `p`, whose status is already the final one, behind `previous`.
abbrev pub terminal_event : Platform → FairnessProof → FairnessProofEvent → ℕ → FairnessProofEvent
terminal_event platform p previous now = record {
  proof_id = p.id;
  sequence = previous.sequence + 1;
  event_type = proof_status_text p.status;
  evidence_version = 2;
  payload = terminal_event_payload p now;
  status = p.status;
  previous_evidence_hash = some previous.evidence_hash;
  evidence_hash = fairness_event_hash platform (record {
    proof_id = p.id;
    sequence = previous.sequence + 1;
    event_type = proof_status_text p.status;
    status = p.status;
    created_at = now;
    previous_evidence_hash = some previous.evidence_hash;
    payload = terminal_event_payload p now;
  });
  created_at = now;
}

abbrev pub previous_event : ℕ → Db → Result Error FairnessProofEvent
previous_event proof_id db = elim (lock_latest_fairness_proof_event proof_id db) [
  | none ↦ err invalid_transition
  | some e ↦ ok e
]

-- The body of `end_committed_fairness_proof` behind its first test.
unfoldable pub retire_proof : Platform → FairnessProof → ProofStatus → ℕ → Db → Result Error Db
retire_proof platform p status now db = do
  raise_if (not (is_unrevealed_end status)) invalid_transition
  previous ← previous_event p.id db
  add_fairness_proof_event (terminal_event platform (record p { status = status }) previous now)
      (delete_fairness_seed_custody p.id (put_proof (record p { status = status }) db))

-- What a step of finalization did: whether it changed anything, and the tables.
pub record Finalized : Type 0 where
  pub changed : Bool
  pub work : Db

abbrev pub finalized : Bool → Db → Finalized
finalized changed work = record { changed = changed; work = work }

-- `end_committed_fairness_proof`
unfoldable pub end_committed_fairness_proof :
    Platform → FairnessProof → ProofStatus → ℕ → Db → Result Error Finalized
unfolding retire_proof
end_committed_fairness_proof platform p status now db =
    if not (is_committed p.status)
    then ok (finalized false db)
    else do work ← retire_proof platform p status now db; ok (finalized true work)

-- The proof that `lock` finds, if there is one, is ended with its session.
unfoldable pub end_session_proof :
    Platform → (Db → Option FairnessProof) → ProofStatus → ℕ → Db → Result Error Finalized
unfolding end_committed_fairness_proof
end_session_proof platform lock status now db = elim (lock db) [
  | none ↦ ok (finalized false db)
  | some p ↦ end_committed_fairness_proof platform p status now db
]

abbrev pub is_expired_session : SessionStatus → Bool
is_expired_session SessionStatus.expired = true
is_expired_session _ = false

-- The proof of a session that is due or was expired before ends with it.
unfoldable pub expire_with_proof :
    Platform → (Db → Option FairnessProof) → GameSession → ℕ → Db → Result Error Finalized
unfolding after_expiry end_session_proof is_due
expire_with_proof platform lock s now db = do
  proof_ended ← end_session_proof platform lock ProofStatus.expired now (after_expiry s now db)
  ok (finalized (is_due s now || proof_ended.changed) proof_ended.work)

-- `finalize_expired_session` on the session's row; `lock` is how it comes by the proof.
unfoldable pub finalize_session :
    Platform → (Db → Option FairnessProof) → GameSession → ℕ → Db → Result Error Finalized
unfolding expire_with_proof is_due
finalize_session platform lock s now db =
    if not (is_due s now) && not (is_expired_session s.status)
    then ok (finalized false db)
    else expire_with_proof platform lock s now db

-- With no `locked_proof` the proof is looked up by its session.
abbrev pub finalize_expired_session : Platform → GameSession → ℕ → Db → Result Error Finalized
finalize_expired_session platform s now db =
    finalize_session platform (lock_fairness_proof_by_session s.id) s now db

-- `_owned_session` of app/services/_common.py: not found before forbidden.
unfoldable pub owned_session : ℕ → ℕ → Db → Result Error GameSession
owned_session session_id owner_id db = elim (lock_session session_id db) [
  | none ↦ err not_found
  | some s ↦ if s.player_id == owner_id then ok s else err forbidden
]
