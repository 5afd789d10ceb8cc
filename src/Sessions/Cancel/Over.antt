-- ===== src/Sessions/Cancel/Over.antt =====
-- A session that `cancel_session` of app/services/sessions.py answers is over.
use python_rng_game_platform.Base.{
  ℕ, ◌≡◌, refl, ap, sym, ◌∙◌, inl, inr, false, Bool-cases, some, ◌==◌, find?, Result, ok,
  Result-cases, >>=-eq-ok, ok_inj, arith, ◌>>=◌,
}
use python_rng_game_platform.Models.Errors.{Error}
use python_rng_game_platform.Models.Rows.{
  GameSession, SessionStatus, ProofStatus, is_active_session,
}
use python_rng_game_platform.Store.{Db, committed, lock_session, put_session}
use python_rng_game_platform.Store.Lookups.{lock_session-replace}
use python_rng_game_platform.Platform.{Platform}
use python_rng_game_platform.Sessions.{
  ended, expire_if_due, cancel_active, Finalized, end_session_proof, finalize_expired_session,
  owned_session, lock_fairness_proof_by_session,
}
use python_rng_game_platform.Sessions.Endings.{
  finalize_session-over, finalize_session-unchanged, end_session_proof-KeepsRows,
}
use python_rng_game_platform.Sessions.Cancel.{
  Ended, cancel_live, cancel_finalized, cancel_owned, cancel_session,
}
use python_rng_game_platform.Gameplay.Once.{owned_session-inv}

-- The row of the session is the answer, and is active no more.
abbrev pub IsOver : ℕ → GameSession → Db → Type 0
IsOver k s durable = (lock_session k durable ≡ some s) × (is_active_session s.status ≡ false)

cancel_active-inv :
    (s : GameSession) (now : ℕ) {new : GameSession}
    → cancel_active s now ≡ ok new
    → new ≡ ended SessionStatus.cancelled now s
unfolding cancel_active
cancel_active-inv s now {new} e = ground arith

cancel_live-IsOver :
    (platform : Platform) (k : ℕ) (s : GameSession) (now : ℕ) (db : Db) {done : Ended}
    → lock_session k db ≡ some s
    → cancel_live platform s now db ≡ ok done
    → IsOver k done.session done.work
unfolding cancel_live lock_session put_session
cancel_live-IsOver platform k s now db {done} found e =
    let finish : GameSession → Finalized → Result Error Ended =
      λ cancelled fin. ok (record { session = cancelled; work = fin.work }) in
    let retire : GameSession → Result Error Ended = λ cancelled.
      end_session_proof platform (lock_fairness_proof_by_session s.id) ProofStatus.cancelled now
        (put_session cancelled db)
      >>= finish cancelled in
    let cancelled = >>=-eq-ok (cancel_active s now) retire e in
    let proof =
      >>=-eq-ok
        (end_session_proof platform (lock_fairness_proof_by_session s.id) ProofStatus.cancelled now
          (put_session cancelled.0 db))
        (finish cancelled.0) cancelled.2 in
    let kept =
      end_session_proof-KeepsRows platform (lock_fairness_proof_by_session s.id)
        ProofStatus.cancelled now (put_session cancelled.0 db) {fin = proof.0} proof.1 in
    let new = ended SessionStatus.cancelled now s in
    let shape : cancelled.0 ≡ new = cancel_active-inv s now cancelled.1 in
    let answer : new ≡ done.session = sym shape ∙ ap (λ (d : Ended). d.session) (ok_inj proof.2) in
    let rows = ap (λ (d : Ended). d.work.sessions) (sym (ok_inj proof.2)) ∙ kept.1 in
    (
      ap (find? (λ x. x.id == k)) (rows ∙ ap (λ x. (put_session x db).sessions) shape)
          ∙ lock_session-replace k new s db.sessions found refl
          ∙ ap some answer,
      ap (λ (x : GameSession). is_active_session x.status) (sym answer),
    )

cancel_finalized-IsOver :
    (platform : Platform) (k : ℕ) (s : GameSession) (now : ℕ) (db : Db) (fin : Finalized)
    {r : GameSession}
    → lock_session k db ≡ some s
    → finalize_expired_session platform s now db ≡ ok fin
    → (cancel_finalized platform s now db fin).result ≡ ok r
    → IsOver k r (cancel_finalized platform s now db fin).durable
unfolding cancel_finalized
cancel_finalized-IsOver platform k s now db fin {r} found ran e = elim (Bool-cases fin.changed) [
  | inl changed ↦
      let step : cancel_finalized platform s now db fin ≡ committed (expire_if_due s now) fin.work =
        simp (changed, cancel_finalized) in
      let (row, over) =
        finalize_session-over platform (lock_fairness_proof_by_session s.id) k s now db {fin = fin}
          found ran changed in
      let same : expire_if_due s now ≡ r = ok_inj (rw step at e) in
      (
        rw step (row ∙ ap some same),
        ap (λ (x : GameSession). is_active_session x.status) (sym same) ∙ over,
      )
  | inr same ↦
      let kept =
        (finalize_session-unchanged platform (lock_fairness_proof_by_session s.id) s now db
          {fin = fin} ran same).1 in
      elim (Result-cases (cancel_live platform s now fin.work)) [
        | inr (x, failed) ↦ absurd (ground arith)
        | inl (done, cancelled) ↦
            let step : cancel_finalized platform s now db fin ≡ committed done.session done.work =
              simp (same, cancelled, cancel_finalized) in
            let (row, over) =
              cancel_live-IsOver platform k s now fin.work {done = done}
                (ap (lock_session k) kept ∙ found) cancelled in
            let answer : done.session ≡ r = ok_inj (rw step at e) in
            (
              rw step (row ∙ ap some answer),
              ap (λ (x : GameSession). is_active_session x.status) (sym answer) ∙ over,
            )
      ]
]

-- A cancellation that answers, be it by cancelling the caller's session or by finding it elapsed, leaves
-- the answered session in its row, and that session is active no more.
pub cancel_session-IsOver :
    (platform : Platform) (session_id owner_id now : ℕ) (db : Db) {r : GameSession}
    → (cancel_session platform session_id owner_id now db).result ≡ ok r
    → IsOver session_id r (cancel_session platform session_id owner_id now db).durable
unfolding cancel_session cancel_owned
cancel_session-IsOver platform session_id owner_id now db {r} e =
    elim (Result-cases (owned_session session_id owner_id db)) [
      | inr (x, failed) ↦ absurd (ground arith)
      | inl (s, own) ↦ elim (Result-cases (finalize_expired_session platform s now db)) [
        | inr (x, failed) ↦ absurd (ground arith)
        | inl (fin, ran) ↦
            let step : cancel_session platform session_id owner_id now db
                ≡ cancel_finalized platform s now db fin =
              rw (own, ran, cancel_session, cancel_owned) refl in
            rw step (
              cancel_finalized-IsOver platform session_id s now db fin {r = r}
                (owned_session-inv session_id owner_id db {s = s} own).0 ran (rw step at e))
      ]
    ]
