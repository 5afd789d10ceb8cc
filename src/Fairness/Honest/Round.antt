-- ===== src/Fairness/Honest/Round.antt =====
-- app/services/fairness.py: a commitment, its evaluation and its verification, one after the other.
use mathlib.Core.Path.{subst}
use python_rng_game_platform.Base.{
  ◌≡◌, ap, ◌∙◌, sym, inl, inr, true, false, Bool-cases, Option, none, some, ok, err, Result, ok_inj,
  some_inj, arith, List, [], ◌∷◌, ◌++◌, ◌==◌, ==_refl, find?, select, All, ◌||◌, ◌≢◌,
}
use python_rng_game_platform.Rng.Encoding.Laws.{IsByte}
use python_rng_game_platform.Rng.Types.{FairnessError}
use python_rng_game_platform.Rng.Verify.{server_seed_commitment}
use python_rng_game_platform.Rng.Messages.{daily_spin_mapping_digest}
use python_rng_game_platform.Models.Rows.{
  Game, GameConfigVersion, GameSession, FairnessProof, FairnessProofEvent, FairnessSeedCustody,
}
use python_rng_game_platform.Store.{
  Db, same_key, lock_session, get_game_by_id, get_config_by_id, lock_fairness_proof_by_session,
}
use python_rng_game_platform.Store.Lookups.{find?-key, find?-append_new, find?-any, lock_session-id}
use python_rng_game_platform.Store.Fairness.{custody_of, get_fairness_seed_custody}
use python_rng_game_platform.Platform.{Platform}
use python_rng_game_platform.Gameplay.{Bound}
use python_rng_game_platform.Gameplay.Once.{owned_session-inv}
use python_rng_game_platform.Fairness.{
  CommitCall, commit_bound, uncaught, commit_fairness, commit_proof, event_of, commit_facts,
}
use python_rng_game_platform.Fairness.Commit.{
  bound_for, committed_db, IsUnused, commit_fairness_effect,
}
use python_rng_game_platform.Fairness.Commit.Once.{commit_proof-inv}
use python_rng_game_platform.Fairness.Evaluate.{
  EvaluateCall, Located, Revealed, is_revealed, evaluate_fairness,
}
use python_rng_game_platform.Fairness.Evaluate.Recorded.{evaluate_fairness-IsRecorded}
use python_rng_game_platform.Fairness.Evaluate.Once.{IsLocated, locate-IsLocated}
use python_rng_game_platform.Fairness.Honest.{IsPending}
use python_rng_game_platform.Fairness.Honest.Verified.{select-append, IsVerified, reveal-IsVerified}

none-some : {A : Type 0} {a : A} → none ≢ some a
none-some e = cc

true-false : true ≢ false
true-false e = cc

uncaught-inv : {A : Type 0} (x : Result FairnessError A) {a : A} → uncaught x ≡ ok a → x ≡ ok a
uncaught-inv (ok v) e = ap ok (ok_inj e)
uncaught-inv (err x) e = cc

commit_bound-inv :
    (g : Option Game) (c : Option GameConfigVersion) {bound : Bound}
    → commit_bound g c ≡ ok bound
    → (g ≡ some bound.game) × (c ≡ some bound.config)
commit_bound-inv none c e = cc
commit_bound-inv (some g) none e = cc
commit_bound-inv (some g) (some c) {bound} e = elim (Bool-cases (c.game_id == g.id)) [
  | inr other ↦ absurd (ground arith)
  | inl same ↦
      let bound_is : record { game = g; config = c } ≡ bound = ok_inj (rw same at e) in
      (ap (λ (b : Bound). some b.game) bound_is, ap (λ (b : Bound). some b.config) bound_is)
]

unused-key :
    (p : FairnessProof) (db : Db) → IsUnused p db → find? (λ q. q.id == p.id) db.proofs ≡ none
unused-key p db (fresh, free) =
    find?-any (λ (q : FairnessProof). q.id == p.id)
      (λ (q : FairnessProof).
        q.id == p.id || q.session_id == p.session_id || same_key q.outcome_id p.outcome_id)
      db.proofs fresh (λ q e. ground arith)

unused-custody :
    (platform : Platform) (first : CommitCall) (p : FairnessProof) (db : Db)
    → IsUnused p db
    → get_fairness_seed_custody p.id (committed_db platform first p db)
      ≡ some (custody_of p.id first.seed)
unfolding get_fairness_seed_custody
unused-custody platform first p db (fresh, free) =
    find?-append_new (λ (c : FairnessSeedCustody). c.proof_id == p.id) db.custodies
      {a = custody_of p.id first.seed}
      (find?-any (λ (c : FairnessSeedCustody). c.proof_id == p.id)
        (λ (c : FairnessSeedCustody). c.proof_id == p.id) db.custodies free (λ c e. e))
      (==_refl p.id)

-- A new proof is pending in the tables that its commitment leaves.
new-IsPending :
    (platform : Platform) (first : CommitCall) (call : EvaluateCall) (s : GameSession)
    (bound : Bound) (p : FairnessProof) (db : Db)
    → All IsByte first.seed
    → select (λ e. e.proof_id == p.id) db.proof_events ≡ []
    → (s.player_id == call.owner_id) ≡ true
    → bound_for s db ≡ ok bound
    → commit_proof platform first s bound ≡ ok p
    → IsUnused p db
    → IsPending platform call (record { session = s; proof = p }) (committed_db platform first p db)
unfolding get_game_by_id get_config_by_id
new-IsPending platform first call s bound p db bytes eventless own bounds made unused =
    let (bands, commitment, digest, banded, sealed, digested, shape) =
      commit_proof-inv platform first s bound {p = p} made in
    let (gamed, configured) =
      commit_bound-inv (get_game_by_id s.game_id db) (get_config_by_id s.config_version_id db)
        {bound = bound} bounds in
    (
      own,
      custody_of p.id first.seed,
      unused-custody platform first p db unused,
      bytes,
      uncaught-inv (server_seed_commitment platform.crypto first.seed) sealed
          ∙ ap (λ (q : FairnessProof). ok q.server_seed_commitment) (sym shape),
      bound.game,
      ap (λ id. get_game_by_id id db)
            (ap (λ (q : FairnessProof). q.game_id) shape
              ∙ find?-key (λ (g : Game). g.id) s.game_id db.games {a = bound.game} gamed)
          ∙ gamed,
      ap (λ (q : FairnessProof). q.game_key) shape,
      bound.config,
      ap (λ id. get_config_by_id id db)
            (ap (λ (q : FairnessProof). q.config_version_id) shape
              ∙ find?-key (λ (c : GameConfigVersion). c.id) s.config_version_id db.configs
                  {a = bound.config} configured)
          ∙ configured,
      bands,
      banded,
      uncaught-inv (daily_spin_mapping_digest platform.crypto bands) digested
          ∙ ap (λ (q : FairnessProof). ok q.mapping_digest) (sym shape),
      first.now,
      select-append (λ (e : FairnessProofEvent). e.proof_id == p.id) db.proof_events
            {a = event_of platform (commit_facts p first.now)} (==_refl p.id)
          ∙ ap
              (λ (es : List FairnessProofEvent).
                es ++ event_of platform (commit_facts p first.now) ∷ [])
              eventless,
    )

-- The proof that an evaluation of the new proof locates is that proof, with its session.
new-located :
    (platform : Platform) (first : CommitCall) (call : EvaluateCall) (s : GameSession)
    (p : FairnessProof) (db : Db) (at : Located)
    → IsUnused p db
    → call.proof_id ≡ p.id
    → p.session_id ≡ s.id
    → lock_session s.id db ≡ some s
    → IsLocated call at (committed_db platform first p db)
    → at ≡ record { session = s; proof = p }
unfolding lock_session
new-located platform first call s p db at unused same_proof same_session locked (held, own, found) =
    let mine : find? (λ q. q.id == p.id) (db.proofs ++ p ∷ []) ≡ some p =
      find?-append_new (λ (q : FairnessProof). q.id == p.id) db.proofs {a = p}
        (unused-key p db unused) (==_refl p.id) in
    let proof_is : at.proof ≡ p = some_inj (
      sym (
        subst (λ id. find? (λ q. q.id == id) (db.proofs ++ p ∷ []) ≡ some at.proof) same_proof held)
      ∙ mine) in
    let session_is : at.session ≡ s = some_inj (
      sym found
      ∙ ap (λ id. lock_session id db)
          (ap (λ (q : FairnessProof). q.session_id) proof_is ∙ same_session)
      ∙ locked) in
    cc

-- A fair round: a new commitment with a seed of bytes, under a key that no event bears, and then any
-- evaluation of that proof by the same player that answers. The verification of its outcome by that player
-- answers, and its verdict is positive: the draw recalculates from the revealed seed, the seed meets its
-- commitment, and the chain of events is intact.
pub fair_round-IsVerified :
    (platform : Platform) (first : CommitCall) (call : EvaluateCall) (db : Db) {p : FairnessProof}
    {r : Revealed}
    → All IsByte first.seed
    → select (λ e. e.proof_id == first.proof_id) db.proof_events ≡ []
    → lock_fairness_proof_by_session first.session_id db ≡ none
    → (commit_fairness platform first db).result ≡ ok p
    → call.proof_id ≡ first.proof_id
    → call.owner_id ≡ first.owner_id
    → (evaluate_fairness platform call (commit_fairness platform first db).durable).result ≡ ok r
    → IsVerified platform call.outcome_id call.owner_id
        (evaluate_fairness platform call (commit_fairness platform first db).durable).durable
fair_round-IsVerified platform first call db {p} {r} bytes eventless without e same_proof same_owner
      answered =
    let (s, owned, early, active, (bound, bounds, done)) =
      commit_fairness_effect platform first db {p = p} e in
    let (locked, own) = owned_session-inv first.session_id first.owner_id db {s = s} owned in
    let mine : (s.player_id == call.owner_id) ≡ true = rw same_owner own in
    let numbered = lock_session-id first.session_id db {s = s} locked in
    let after = (commit_fairness platform first db).durable in
    let (at, found, shown) = evaluate_fairness-IsRecorded platform call after {r = r} answered in
    elim done [
      | inl (kept, stays) ↦ absurd (
          none-some
            (sym without ∙ ap (λ id. lock_fairness_proof_by_session id db) (sym numbered) ∙ kept))
      | inr (fresh, made, unused, changed) ↦
          let (bands, commitment, digest, banded, sealed, digested, shape) =
            commit_proof-inv platform first s bound {p = p} made in
          let located : IsLocated call at (committed_db platform first p db) =
            subst (IsLocated call at) changed (locate-IsLocated call after {at = at} found) in
          let at_is =
            new-located platform first call s p db at unused
              (same_proof ∙ ap (λ (q : FairnessProof). q.id) (sym shape))
              (ap (λ (q : FairnessProof). q.session_id) shape)
              (ap (λ id. lock_session id db) numbered ∙ locked) located in
          let pending : IsPending platform call at after =
            subst (IsPending platform call at) (sym changed) (
              subst (λ x. IsPending platform call x (committed_db platform first p db)) (sym at_is)
                (new-IsPending platform first call s bound p db bytes
                  (ap (λ (q : FairnessProof). select (λ e. e.proof_id == q.id) db.proof_events)
                      shape
                    ∙ eventless)
                  mine bounds made unused)) in
          elim shown [
            | inl again ↦
                let hidden : is_revealed at.proof.status ≡ false =
                  ap (λ (x : Located). is_revealed x.proof.status) at_is
                  ∙ ap (λ (q : FairnessProof). is_revealed q.status) shape in
                absurd (true-false (sym again.0 ∙ hidden))
            | inr reveal ↦
                reveal-IsVerified platform call at r after
                  (evaluate_fairness platform call after).durable
                  (locate-IsLocated call after {at = at} found) pending reveal
          ]
    ]
