-- ===== src/Fairness/Commit/Once.antt =====
-- `commit_fairness` of app/services/fairness.py, repeated.
use python_rng_game_platform.Base.{
  ◌>>=◌, ℕ, ◌≡◌, refl, ◌∙◌, sym, inl, inr, true, false, Option, some, ok, >>=-eq-ok, ok_inj, ◌==◌,
  ==_refl, arith, Text, List,
}
use python_rng_game_platform.Rng.Verify.{server_seed_commitment}
use python_rng_game_platform.Rng.Messages.{daily_spin_mapping_digest}
use python_rng_game_platform.Rng.Types.{RewardBand}
use python_rng_game_platform.Models.Rows.{GameSession, FairnessProof, is_active_session}
use python_rng_game_platform.Store.{
  Db, committed, lock_session, get_game_by_id, get_config_by_id, lock_fairness_proof_by_session,
}
use python_rng_game_platform.Store.Lookups.{find?-append_new}
use python_rng_game_platform.Platform.{Platform}
use python_rng_game_platform.Sessions.{is_due, finalize_session, finalized, owned_session}
use python_rng_game_platform.Gameplay.{Bound}
use python_rng_game_platform.Fairness.{
  CommitCall, reward_bands_for, uncaught, new_proof, commit_proof, commit_active,
  commit_bound_session, commit_finalized, commit_owned, commit_fairness,
}
use python_rng_game_platform.Fairness.Commit.{bound_for, committed_db, commit_fairness_effect}

finalize_session-live :
    (platform : Platform) (lock : Db → Option FairnessProof) (s : GameSession) (now : ℕ) (db : Db)
    → is_due s now ≡ false
    → is_active_session s.status ≡ true
    → finalize_session platform lock s now db ≡ ok (finalized false db)
unfolding finalize_session
finalize_session-live platform lock s now db early active = ground arith

-- A commitment for a session with a proof answers that proof and keeps the tables.
commit_fairness-kept :
    (platform : Platform) (call : CommitCall) (db : Db) (s : GameSession) (bound : Bound)
    (p : FairnessProof)
    → owned_session call.session_id call.owner_id db ≡ ok s
    → is_due s call.now ≡ false
    → is_active_session s.status ≡ true
    → bound_for s db ≡ ok bound
    → lock_fairness_proof_by_session s.id db ≡ some p
    → commit_fairness platform call db ≡ committed p db
unfolding commit_fairness commit_owned commit_finalized commit_active commit_bound_session
commit_fairness-kept platform call db s bound p found early active bounds kept =
    rw
      (
        found,
        finalize_session-live platform (lock_fairness_proof_by_session s.id) s call.now db early
            active,
        active,
        bounds,
        kept,
        commit_fairness,
        commit_owned,
        commit_finalized,
        commit_active,
        commit_bound_session,
      )
      refl

pub commit_proof-inv :
    (platform : Platform) (call : CommitCall) (s : GameSession) (bound : Bound) {p : FairnessProof}
    → commit_proof platform call s bound ≡ ok p
    → (bands : List RewardBand) × (commitment : Text) × (digest : Text) × (reward_bands_for
          bound.game.key bound.config
        ≡ ok bands)
      × (uncaught (server_seed_commitment platform.crypto call.seed) ≡ ok commitment)
      × (uncaught (daily_spin_mapping_digest platform.crypto bands) ≡ ok digest)
      × (p ≡ new_proof call s bound commitment digest)
unfolding commit_proof
commit_proof-inv platform call s bound {p} e =
    let seal = uncaught (server_seed_commitment platform.crypto call.seed) in
    let digests =
      λ (bands : List RewardBand). uncaught (daily_spin_mapping_digest platform.crypto bands) in
    let (bands, banded, e1) =
      >>=-eq-ok (reward_bands_for bound.game.key bound.config)
        (λ bands. seal >>= λ commitment.
          digests bands >>= λ digest. ok (new_proof call s bound commitment digest))
        e in
    let (commitment, sealed, e2) =
      >>=-eq-ok seal
        (λ commitment. digests bands >>= λ digest. ok (new_proof call s bound commitment digest))
        e1 in
    let (digest, digested, e3) =
      >>=-eq-ok (digests bands) (λ digest. ok (new_proof call s bound commitment digest)) e2 in
    (bands, commitment, digest, banded, sealed, digested, sym (ok_inj e3))

commit_proof-session :
    (platform : Platform) (call : CommitCall) (s : GameSession) (bound : Bound) {p : FairnessProof}
    → commit_proof platform call s bound ≡ ok p
    → (p.session_id == s.id) ≡ true
commit_proof-session platform call s bound {p} e =
    let (bands, commitment, digest, banded, sealed, digested, shape) =
      commit_proof-inv platform call s bound {p = p} e in
    rw shape (==_refl s.id)

lock-committed_db :
    (platform : Platform) (call : CommitCall) (s : GameSession) (p : FairnessProof) (db : Db)
    → lock_fairness_proof_by_session s.id db ≡ Option.none
    → (p.session_id == s.id) ≡ true
    → lock_fairness_proof_by_session s.id (committed_db platform call p db) ≡ some p
unfolding lock_fairness_proof_by_session
lock-committed_db platform call s p db without same =
    find?-append_new (λ (q : FairnessProof). q.session_id == s.id) db.proofs {a = p} without same

-- The same request, at a time when the session is still not due, is answered with the same proof and
-- changes nothing: whatever seed and key are drawn for it, the committed seed is not replaced.
pub commit_fairness_once :
    (platform : Platform) (call again : CommitCall) (db : Db) (s : GameSession) {p : FairnessProof}
    → (commit_fairness platform call db).result ≡ ok p
    → again.session_id ≡ call.session_id
    → again.owner_id ≡ call.owner_id
    → owned_session call.session_id call.owner_id db ≡ ok s
    → is_due s again.now ≡ false
    → let after = (commit_fairness platform call db).durable in
      commit_fairness platform again after ≡ committed p after
unfolding owned_session lock_session get_game_by_id get_config_by_id
commit_fairness_once platform call again db s {p} e same_session same_owner owned early =
    let (t, found, due, active, (bound, bounds, done)) =
      commit_fairness_effect platform call db {p = p} e in
    let same : t ≡ s = ok_inj (sym found ∙ owned) in
    let active_s : is_active_session s.status ≡ true = rw same at active in
    let bounds_s : bound_for s db ≡ ok bound = rw same at bounds in
    elim done [
      | inl (kept, stays) ↦ rw stays (
          commit_fairness-kept platform again db s bound p (rw (same_session, same_owner) owned)
            early active_s bounds_s (rw same at kept))
      | inr (without, made, unused, stays) ↦ rw stays (
          commit_fairness-kept platform again (committed_db platform call p db) s bound p
            (rw (same_session, same_owner) owned) early active_s bounds_s
            (lock-committed_db platform call s p db (rw same at without)
              (rw same at (commit_proof-session platform call t bound {p = p} made))))
    ]
