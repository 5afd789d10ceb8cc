-- ===== src/Fairness/Commit.antt =====
-- What an answered `commit_fairness` of app/services/fairness.py did to the database.
pub mod Once
use mathlib.Core.Path.{subst}
use python_rng_game_platform.Base.{
  ℕ, ◌≡◌, ◌⊎◌, refl, ap, ◌∙◌, inl, inr, true, false, Bool, Bool-cases, Option, Option-cases, none,
  some, ok, err, Result-cases, >>=-eq-ok, ok_inj, arith, [], ◌∷◌, ◌++◌, find?, Result, any, ◌==◌,
  ◌||◌,
}
use python_rng_game_platform.Models.Errors.{Error}
use python_rng_game_platform.Models.Rows.{GameSession, FairnessProof, is_active_session}
use python_rng_game_platform.Store.{
  Db, same_key, get_game_by_id, get_config_by_id, lock_fairness_proof_by_session,
  add_fairness_proof_event,
}
use python_rng_game_platform.Store.Fairness.{
  custody_of, add_fairness_proof, add_fairness_seed_custody,
}
use python_rng_game_platform.Platform.{Platform}
use python_rng_game_platform.Sessions.{is_due, finalize_expired_session, Finalized, owned_session}
use python_rng_game_platform.Sessions.Endings.{finalize_session-unchanged}
use python_rng_game_platform.Gameplay.{Bound}
use python_rng_game_platform.Fairness.{
  CommitCall, commit_bound, commit_proof, commit_facts, event_of, record_commit, commit_fresh,
  commit_bound_session, commit_active, commit_finalized, commit_owned, commit_fairness,
}

-- The tables after a commitment: the proof, the custody of its seed, and its first event.
abbrev pub committed_db : Platform → CommitCall → FairnessProof → Db → Db
committed_db platform call p db = record db {
  proofs = db.proofs ++ p ∷ [];
  custodies = db.custodies ++ custody_of p.id call.seed ∷ [];
  proof_events = db.proof_events ++ event_of platform (commit_facts p call.now) ∷ [];
}

-- No proof has the key or the session of the new one, and no seed is in custody under its key.
abbrev pub IsUnused : FairnessProof → Db → Type 0
IsUnused p db =
    (any (λ q. q.id == p.id || q.session_id == p.session_id || same_key q.outcome_id p.outcome_id)
        db.proofs
      ≡ false)
    × (any (λ c. c.proof_id == p.id) db.custodies ≡ false)

pub record_commit-inv :
    (platform : Platform) (call : CommitCall) (p : FairnessProof) (db : Db) {work : Db}
    → record_commit platform call p db ≡ ok work
    → (work ≡ committed_db platform call p db) × IsUnused p db
unfolding record_commit add_fairness_proof add_fairness_seed_custody add_fairness_proof_event
record_commit-inv platform call p db {work} e = (ground arith, (ground arith, ground arith))

abbrev pub bound_for : GameSession → Db → Result Error Bound
bound_for s db =
    commit_bound (get_game_by_id s.game_id db) (get_config_by_id s.config_version_id db)

-- A session that has a proof already: it is answered, and nothing changes.
abbrev pub IsKept : GameSession → FairnessProof → Db → Db → Type 0
IsKept s p db durable = (lock_fairness_proof_by_session s.id db ≡ some p) × (durable ≡ db)

-- A session without a proof: a new proof for the session's game and configuration, with the
-- commitment of the seed, and the tables take its rows.
abbrev pub IsNew : Platform → CommitCall → GameSession → Bound → FairnessProof → Db → Db → Type 0
IsNew platform call s bound p db durable =
    (lock_fairness_proof_by_session s.id db ≡ none)
    × (commit_proof platform call s bound ≡ ok p)
    × IsUnused p db
    × (durable ≡ committed_db platform call p db)

abbrev pub CommitDone : Platform → CommitCall → GameSession → FairnessProof → Db → Db → Type 0
CommitDone platform call s p db durable =
    (bound : Bound) × (bound_for s db ≡ ok bound)
    × (IsKept s p db durable ⊎ IsNew platform call s bound p db durable)

commit_fresh-IsNew :
    (platform : Platform) (call : CommitCall) (s : GameSession) (bound : Bound) (db : Db)
    {p : FairnessProof}
    → (commit_fresh platform call s bound db db).result ≡ ok p
    → (commit_proof platform call s bound ≡ ok p)
      × IsUnused p db
      × ((commit_fresh platform call s bound db db).durable ≡ committed_db platform call p db)
unfolding commit_fresh
commit_fresh-IsNew platform call s bound db {p} e =
    elim (Result-cases (commit_proof platform call s bound)) [
      | inr (x, failed) ↦ absurd (ground arith)
      | inl (q, made) ↦ elim (Result-cases (record_commit platform call q db)) [
        | inr (x, failed) ↦ absurd (ground arith)
        | inl (after, recorded) ↦
            let same : q ≡ p = ground arith in
            let (shape, unused) = record_commit-inv platform call q db {work = after} recorded in
            (
              made ∙ ap ok same,
              subst (λ (x : FairnessProof). IsUnused x db) same unused,
              rw (made, recorded, commit_fresh)
                  (shape ∙ ap (λ (x : FairnessProof). committed_db platform call x db) same),
            )
      ]
    ]

commit_active-answer :
    (platform : Platform) (call : CommitCall) (s : GameSession) (db : Db) {p : FairnessProof}
    → (commit_active platform call s db db).result ≡ ok p
    → CommitDone platform call s p db (commit_active platform call s db db).durable
unfolding commit_active commit_bound_session
commit_active-answer platform call s db {p} e = elim (Result-cases (bound_for s db)) [
  | inr (x, failed) ↦ absurd (ground arith)
  | inl (bound, found) ↦ elim (Option-cases (lock_fairness_proof_by_session s.id db)) [
    | inr (q, kept) ↦ (
      bound,
      found,
      inl (
        kept ∙ ap some (ground arith),
        rw (found, kept, commit_active, commit_bound_session) refl,
      ),
    )
    | inl without ↦
        let step : commit_active platform call s db db ≡ commit_fresh platform call s bound db db =
          rw (found, without, commit_active, commit_bound_session) refl in
        let (made, unused, shape) =
          commit_fresh-IsNew platform call s bound db {p = p} (rw step at e) in
        (bound, found, inr (without, made, unused, rw step shape))
  ]
]

-- What a commitment that answers is: on the caller's own active session that is not due, a proof
-- that the session has, or a new one.
abbrev pub IsCommitted : Platform → CommitCall → FairnessProof → Db → Db → Type 0
IsCommitted platform call p db durable =
    (s : GameSession) × (owned_session call.session_id call.owner_id db ≡ ok s)
    × (is_due s call.now ≡ false)
    × (is_active_session s.status ≡ true)
    × CommitDone platform call s p db durable

commit_finalized-active :
    (platform : Platform) (call : CommitCall) (s : GameSession) (db : Db) (fin : Finalized)
    {p : FairnessProof}
    → (commit_finalized platform call s db fin).result ≡ ok p
    → (fin.changed ≡ false)
      × (is_active_session s.status ≡ true)
      × (commit_finalized platform call s db fin ≡ commit_active platform call s db fin.work)
unfolding commit_finalized
commit_finalized-active platform call s db fin {p} e = elim (Bool-cases fin.changed) [
  | inl changed ↦ absurd (ground arith)
  | inr same ↦ elim (Bool-cases (is_active_session s.status)) [
    | inl active ↦ (same, active, rw (same, active, commit_finalized) refl)
    | inr over ↦ absurd (ground arith)
  ]
]

commit_owned-active :
    (platform : Platform) (call : CommitCall) (s : GameSession) (db : Db) {p : FairnessProof}
    → (commit_owned platform call s db).result ≡ ok p
    → (is_due s call.now ≡ false)
      × (is_active_session s.status ≡ true)
      × (commit_owned platform call s db ≡ commit_active platform call s db db)
unfolding commit_owned
commit_owned-active platform call s db {p} e =
    elim (Result-cases (finalize_expired_session platform s call.now db)) [
      | inr (x, failed) ↦ absurd (ground arith)
      | inl (fin, done) ↦
          let (same, active, step) =
            commit_finalized-active platform call s db fin {p = p} (rw (done, commit_owned) at e) in
          let kept =
            finalize_session-unchanged platform (lock_fairness_proof_by_session s.id) s call.now db
              {fin = fin} done same in
          (
            kept.0,
            active,
            rw (done, commit_owned)
                (step ∙ ap (λ (work : Db). commit_active platform call s db work) kept.1),
          )
    ]

-- A commitment that answers found the caller's own session, active and not due. If the session has a
-- proof, that proof is the answer and nothing changes, whatever seed was drawn; otherwise the answer is
-- the new proof of the session's game and configuration with the seed's commitment and the digest of the
-- reward bands, and exactly three rows are added: the proof, the seed in custody, the first event.
pub commit_fairness_effect :
    (platform : Platform) (call : CommitCall) (db : Db) {p : FairnessProof}
    → (commit_fairness platform call db).result ≡ ok p
    → IsCommitted platform call p db (commit_fairness platform call db).durable
unfolding commit_fairness
commit_fairness_effect platform call db {p} e =
    elim (Result-cases (owned_session call.session_id call.owner_id db)) [
      | inr (x, failed) ↦ absurd (ground arith)
      | inl (s, found) ↦
          let (early, active, step) =
            commit_owned-active platform call s db {p = p} (rw (found, commit_fairness) at e) in
          let answered : (commit_active platform call s db db).result ≡ ok p =
            rw step at (rw (found, commit_fairness) at e) in
          let done : CommitDone platform call s p db (commit_fairness platform call db).durable =
            rw (found, commit_fairness, step)
              (commit_active-answer platform call s db {p = p} answered) in
          (s, found, early, active, done)
    ]
