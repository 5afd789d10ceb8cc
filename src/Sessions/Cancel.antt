-- ===== src/Sessions/Cancel.antt =====
-- `cancel_session` and `retrieve_session` of app/services/sessions.py.
pub mod Over
use python_rng_game_platform.Base.{ℕ, if◌then◌else◌, Result, ok, err, ◌>>=◌}
use python_rng_game_platform.Models.Errors.{Error}
use python_rng_game_platform.Models.Rows.{GameSession, ProofStatus}
use python_rng_game_platform.Store.{Db, Reply, rolled_back, committed, put_session}
use python_rng_game_platform.Platform.{Platform}
use python_rng_game_platform.Sessions.{
  expire_if_due, cancel_active, Finalized, end_session_proof, finalize_expired_session,
  owned_session, lock_fairness_proof_by_session,
}

-- A session and the tables with its end.
pub record Ended : Type 0 where
  pub session : GameSession
  pub work : Db

unfoldable pub cancel_live : Platform → GameSession → ℕ → Db → Result Error Ended
cancel_live platform s now db = do
  cancelled ← cancel_active s now
  proof_ended ←
      end_session_proof platform (lock_fairness_proof_by_session s.id) ProofStatus.cancelled now
        (put_session cancelled db)
  ok (record { session = cancelled; work = proof_ended.work })

unfoldable pub cancel_finalized : Platform → GameSession → ℕ → Db → Finalized → Reply GameSession
unfolding cancel_live
cancel_finalized platform s now db fin =
    if fin.changed
    then committed (expire_if_due s now) fin.work
    else elim (cancel_live platform s now fin.work) [
      | err e ↦ rolled_back e db
      | ok done ↦ committed done.session done.work
    ]

unfoldable pub cancel_owned : Platform → GameSession → ℕ → Db → Reply GameSession
unfolding cancel_finalized
cancel_owned platform s now db = elim (finalize_expired_session platform s now db) [
  | err e ↦ rolled_back e db
  | ok fin ↦ cancel_finalized platform s now db fin
]

unfoldable pub cancel_session : Platform → ℕ → ℕ → ℕ → Db → Reply GameSession
unfolding cancel_owned
cancel_session platform session_id owner_id now db = elim (owned_session session_id owner_id db) [
  | err e ↦ rolled_back e db
  | ok s ↦ cancel_owned platform s now db
]

-- The commit of a finalization that changed something; one that did not left nothing to commit.
unfoldable pub retrieve_owned : Platform → GameSession → ℕ → Db → Reply GameSession
retrieve_owned platform s now db = elim (finalize_expired_session platform s now db) [
  | err e ↦ rolled_back e db
  | ok fin ↦ committed (expire_if_due s now) (if fin.changed then fin.work else db)
]

unfoldable pub retrieve_session : Platform → ℕ → ℕ → ℕ → Db → Reply GameSession
unfolding retrieve_owned
retrieve_session platform session_id owner_id now db = elim (owned_session session_id owner_id db) [
  | err e ↦ rolled_back e db
  | ok s ↦ retrieve_owned platform s now db
]
