-- ===== src/Fairness/Evaluate/Rows.antt =====
-- The rows that `evaluate_fairness` of app/services/fairness.py writes.
use python_rng_game_platform.Base.{
  not, ◌&&◌, ◌==◌, ◌||◌, sym, some, any, false, ◌≡◌, ap, ◌∙◌, [], ◌∷◌, ◌++◌, Text, codes, Result,
  ok, >>=-eq-ok, arith, ◌>>=◌,
}
use python_rng_game_platform.Models.Errors.{Error}
use python_rng_game_platform.Models.Rows.{
  GameSession, SessionStatus, FairnessProof, FairnessProofEvent,
}
use python_rng_game_platform.Store.{
  Db, same_key, lock_latest_fairness_proof_event, replace, add_outcome, add_reward, put_session,
  add_fairness_proof_event,
}
use python_rng_game_platform.Store.Fairness.{update_fairness_proof}
use python_rng_game_platform.Store.Evidence.{
  outcome_audit, reward_audit, game_played_event, reward_event, add_outcome_audit,
  add_game_played_event, add_reward_evidence, add_audit,
}
use python_rng_game_platform.Platform.{Platform}
use python_rng_game_platform.Sessions.{ended, previous_event}
use python_rng_game_platform.Gameplay.Rows.{
  add_outcome-inv, add_reward-inv, add_game_played_event-inv, add_reward_evidence-inv,
}
use python_rng_game_platform.Fairness.{event_of}
use python_rng_game_platform.Fairness.Evaluate.{
  EvaluateCall, Drawn, spin_outcome, spin_reward, revealed_proof, reveal_facts, record_reveal,
  Outcome, Reward,
}

pub update_fairness_proof-inv :
    (p : FairnessProof) (db : Db) {work : Db}
    → update_fairness_proof p db ≡ ok work
    → work ≡ record db { proofs = replace (λ r. r.id) p db.proofs }
unfolding update_fairness_proof
update_fairness_proof-inv p db {work} e = ground arith

pub add_fairness_proof_event-inv :
    (v : FairnessProofEvent) (db : Db) {work : Db}
    → add_fairness_proof_event v db ≡ ok work
    → work ≡ record db { proof_events = db.proof_events ++ v ∷ [] }
unfolding add_fairness_proof_event
add_fairness_proof_event-inv v db {work} e = ground arith

-- No outcome and no reward of the tables has a key of the new ones, and no other proof has the outcome.
abbrev pub IsFree : EvaluateCall → GameSession → FairnessProof → Db → Type 0
IsFree call s p db =
    (any (λ o. o.id == call.outcome_id || o.session_id == s.id) db.outcomes ≡ false)
    × (any (λ r. r.id == call.reward_id || same_key r.outcome_id (some call.outcome_id)) db.rewards
        ≡ false)
    × (any (λ q. not (q.id == p.id) && same_key q.outcome_id (some call.outcome_id)) db.proofs
        ≡ false)

update_fairness_proof-free :
    (p : FairnessProof) (db : Db) {work : Db}
    → update_fairness_proof p db ≡ ok work
    → any (λ q. not (q.id == p.id) && same_key q.outcome_id p.outcome_id) db.proofs ≡ false
unfolding update_fairness_proof
update_fairness_proof-free p db {work} e = ground arith

add_outcome-free :
    (o : Outcome) (db : Db) {work : Db}
    → add_outcome o db ≡ ok work
    → any (λ x. x.id == o.id || x.session_id == o.session_id) db.outcomes ≡ false
unfolding add_outcome
add_outcome-free o db {work} e = ground arith

add_reward-free :
    (r : Reward) (db : Db) {work : Db}
    → add_reward r db ≡ ok work
    → any (λ x. x.id == r.id || same_key x.outcome_id r.outcome_id) db.rewards ≡ false
unfolding add_reward
add_reward-free r db {work} e = ground arith

module _ (platform : Platform) (call : EvaluateCall) (s : GameSession) (p : FairnessProof)
    (drawn : Drawn) where
  abbrev revealed : FairnessProof
  revealed = revealed_proof platform call p drawn

  abbrev game_key : Text
  game_key = drawn.material.game.key

  -- The outcome, its reward and the revealed proof.
  abbrev pub with_rows : Db → Db
  with_rows db = record db {
    outcomes = db.outcomes ++ spin_outcome call s drawn ∷ [];
    rewards = db.rewards ++ spin_reward call s drawn ∷ [];
    proofs = replace (λ r. r.id) revealed db.proofs;
  }

  -- The event, the completed session, and the evidence.
  abbrev pub with_evidence : FairnessProofEvent → Db → Db
  with_evidence previous db = record db {
    proof_events =
        db.proof_events ++ event_of platform (reveal_facts revealed previous call.now) ∷ [];
    sessions = replace (λ r. r.id) (ended SessionStatus.completed call.now s) db.sessions;
    audits =
        (db.audits ++ outcome_audit (spin_outcome call s drawn) call.owner_id game_key ∷ [])
        ++ reward_audit (codes "reward_issued") (spin_reward call s drawn) game_key ∷ [];
    analytics =
        (db.analytics ++ game_played_event (spin_outcome call s drawn) call.owner_id game_key ∷ [])
        ++ reward_event (codes "reward_issued") (spin_reward call s drawn) game_key ∷ [];
  }

  -- The tables after a reveal behind the event `previous`.
  abbrev pub revealed_db : FairnessProofEvent → Db → Db
  revealed_db previous db = with_evidence previous (with_rows db)

  abbrev audited : Db → Db
  audited db =
      add_outcome_audit (spin_outcome call s drawn) call.owner_id game_key
        (put_session (ended SessionStatus.completed call.now s) db)

  abbrev evidenced : Db → Result Error Db
  evidenced db =
      add_game_played_event (spin_outcome call s drawn) call.owner_id game_key (audited db)
      >>= add_reward_evidence (codes "reward_issued") (spin_reward call s drawn) game_key

  abbrev chained : FairnessProofEvent → Db → Result Error Db
  chained previous db =
      add_fairness_proof_event (event_of platform (reveal_facts revealed previous call.now)) db
      >>= evidenced

  abbrev proved : Db → FairnessProofEvent → Result Error Db
  proved db previous = update_fairness_proof revealed db >>= chained previous

  abbrev preceded : Db → Result Error Db
  preceded db = previous_event p.id db >>= proved db

  abbrev rewarded : Db → Result Error Db
  rewarded db = add_reward (spin_reward call s drawn) db >>= preceded

  evidenced-inv :
      (previous : FairnessProofEvent) (db after : Db) {work : Db}
      → after ≡ record db {
        proof_events =
            db.proof_events ++ event_of platform (reveal_facts revealed previous call.now) ∷ [];
      }
      → evidenced after ≡ ok work
      → work ≡ with_evidence previous db
  unfolding add_outcome_audit put_session add_audit
  evidenced-inv previous db after {work} shape e =
      let reward = spin_reward call s drawn in
      let (played, seen, e1) =
        >>=-eq-ok
          (add_game_played_event (spin_outcome call s drawn) call.owner_id game_key (audited after))
          (add_reward_evidence (codes "reward_issued") reward game_key) e in
      add_reward_evidence-inv reward game_key played e1
      ∙ ap
          (λ (x : Db). record x {
            audits = x.audits ++ reward_audit (codes "reward_issued") reward game_key ∷ [];
            analytics = x.analytics ++ reward_event (codes "reward_issued") reward game_key ∷ [];
          })
          (add_game_played_event-inv (spin_outcome call s drawn) call.owner_id game_key
            (audited after) seen)
      ∙ ap
          (λ (x : Db). record x {
            sessions = replace (λ r. r.id) (ended SessionStatus.completed call.now s) x.sessions;
            audits =
                (x.audits ++ outcome_audit (spin_outcome call s drawn) call.owner_id game_key ∷ [])
                ++ reward_audit (codes "reward_issued") reward game_key ∷ [];
            analytics =
                (x.analytics
                  ++ game_played_event (spin_outcome call s drawn) call.owner_id game_key ∷ [])
                ++ reward_event (codes "reward_issued") reward game_key ∷ [];
          })
          shape

  rows-inv :
      (db a b c : Db)
      → add_outcome (spin_outcome call s drawn) db ≡ ok a
      → add_reward (spin_reward call s drawn) a ≡ ok b
      → update_fairness_proof revealed b ≡ ok c
      → c ≡ with_rows db
  rows-inv db a b c e1 e2 e3 =
      update_fairness_proof-inv revealed b {work = c} e3
      ∙ ap (λ (x : Db). record x { proofs = replace (λ r. r.id) revealed x.proofs })
          (add_reward-inv (spin_reward call s drawn) a {work = b} e2)
      ∙ ap
          (λ (x : Db). record x {
            rewards = x.rewards ++ spin_reward call s drawn ∷ [];
            proofs = replace (λ r. r.id) revealed x.proofs;
          })
          (add_outcome-inv (spin_outcome call s drawn) db {work = a} e1)

  -- The rows that a recorded reveal leaves.
  pub record_reveal-inv :
      (db : Db) {work : Db}
      → record_reveal platform call s p drawn db ≡ ok work
      → (previous : FairnessProofEvent) × (previous_event p.id db ≡ ok previous)
        × IsFree call s p db
        × (work ≡ revealed_db previous db)
  unfolding record_reveal lock_latest_fairness_proof_event
  record_reveal-inv db {work} e =
      let (a, ea, e1) = >>=-eq-ok (add_outcome (spin_outcome call s drawn) db) rewarded e in
      let (b, eb, e2) = >>=-eq-ok (add_reward (spin_reward call s drawn) a) preceded e1 in
      let (previous, ep, e3) = >>=-eq-ok (previous_event p.id b) (proved b) e2 in
      let (c, ec, e4) = >>=-eq-ok (update_fairness_proof revealed b) (chained previous) e3 in
      let (d, ed, e5) =
        >>=-eq-ok
          (add_fairness_proof_event (event_of platform (reveal_facts revealed previous call.now)) c)
          evidenced e4 in
      let with_reward =
        add_reward-inv (spin_reward call s drawn) a {work = b} eb
        ∙ ap (λ (x : Db). record x { rewards = x.rewards ++ spin_reward call s drawn ∷ [] })
            (add_outcome-inv (spin_outcome call s drawn) db {work = a} ea) in
      let shape = rows-inv db a b c ea eb ec in
      (
        previous,
        ap (previous_event p.id) (sym with_reward) ∙ ep,
        (
          add_outcome-free (spin_outcome call s drawn) db ea,
          ap
                (λ (x : Db).
                  any (λ r. r.id == call.reward_id || same_key r.outcome_id (some call.outcome_id))
                    x.rewards)
                (sym (add_outcome-inv (spin_outcome call s drawn) db {work = a} ea))
              ∙ add_reward-free (spin_reward call s drawn) a {work = b} eb,
          ap
                (λ (x : Db).
                  any (λ q. not (q.id == p.id) && same_key q.outcome_id (some call.outcome_id))
                    x.proofs)
                (sym with_reward)
              ∙ update_fairness_proof-free revealed b {work = c} ec,
        ),
        evidenced-inv previous c d
              (add_fairness_proof_event-inv
                (event_of platform (reveal_facts revealed previous call.now)) c ed)
              e5
            ∙ ap (with_evidence previous) shape,
      )
