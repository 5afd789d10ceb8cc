-- ===== src/Fairness/Evaluate/Once.antt =====
-- `evaluate_fairness` of app/services/fairness.py, repeated.
use python_rng_game_platform.Base.{
  ℕ, ◌≡◌, ◌≢◌, refl, ap, ◌∙◌, sym, inl, inr, true, false, Bool, Bool-cases, Option-cases, some, ok,
  ok_inj, arith, ◌==◌, ==_refl, ==_iff, ==ˢ_refl, ==ˢ_ne, find?, ◌||◌,
}
use python_rng_game_platform.Models.Errors.{idempotency_conflict}
use python_rng_game_platform.Models.Rows.{
  GameSession, SessionStatus, Outcome, Reward, FairnessProof, FairnessProofEvent,
}
use python_rng_game_platform.Store.{
  Db, rolled_back, committed, same_key, lock_session, get_outcome, lock_reward_by_session,
}
use python_rng_game_platform.Store.Fairness.{get_fairness_proof, lock_fairness_proof}
use python_rng_game_platform.Store.Lookups.{
  find?-key, find?-replace_where, lock_session-replace, lock_session-id, find?-append_new,
  find?-any,
}
use python_rng_game_platform.Platform.{Platform}
use python_rng_game_platform.Sessions.{ended}
use python_rng_game_platform.Fairness.Evaluate.{
  EvaluateCall, evaluation_fingerprint, Revealed, Located, locate, is_revealed, reveal_again, Drawn,
  spin_outcome, spin_reward, revealed_proof, revealed_of, evaluate_revealed, evaluate_located,
  evaluate_fairness,
}
use python_rng_game_platform.Fairness.Evaluate.Rows.{IsFree, revealed_db}
use python_rng_game_platform.Fairness.Evaluate.Recorded.{
  IsAgain, IsReveal, evaluate_fairness-IsRecorded,
}

-- The rows behind `locate`.
abbrev pub IsLocated : EvaluateCall → Located → Db → Type 0
IsLocated call at db =
    (find? (λ p. p.id == call.proof_id) db.proofs ≡ some at.proof)
    × ((at.proof.player_id == call.owner_id) ≡ true)
    × (lock_session at.proof.session_id db ≡ some at.session)

pub locate-IsLocated :
    (call : EvaluateCall) (db : Db) {at : Located} → locate call db ≡ ok at → IsLocated call at db
unfolding locate get_fairness_proof lock_fairness_proof
locate-IsLocated call db {at} e =
    elim (Option-cases (find? (λ (p : FairnessProof). p.id == call.proof_id) db.proofs)) [
      | inl missing ↦ absurd (ground arith)
      | inr (p, held) ↦ elim (Bool-cases (p.player_id == call.owner_id)) [
        | inr other ↦ absurd (ground arith)
        | inl own ↦ elim (Option-cases (lock_session p.session_id db)) [
          | inl gone ↦ absurd (ground arith)
          | inr (s, locked) ↦
              let found : record { session = s; proof = p } ≡ at =
                ok_inj
                  (rw (held, own, locked, locate, get_fairness_proof, lock_fairness_proof) at e) in
              let same : p ≡ at.proof = ap (λ (x : Located). x.proof) found in
              (
                held ∙ ap some same,
                ap (λ (q : FairnessProof). q.player_id == call.owner_id) (sym same) ∙ own,
                ap (λ (q : FairnessProof). lock_session q.session_id db) (sym same)
                    ∙ locked
                    ∙ ap (λ (x : Located). some x.session) found,
              )
        ]
      ]
    ]

pub IsLocated-locate :
    (call : EvaluateCall) (at : Located) (db : Db) → IsLocated call at db → locate call db ≡ ok at
unfolding locate get_fairness_proof lock_fairness_proof
IsLocated-locate call at db (held, own, locked) =
    rw (held, own, locked, locate, get_fairness_proof, lock_fairness_proof) refl

-- A revealed proof with its rows, and the fingerprint of the request that revealed it.
abbrev IsSettled : Platform → EvaluateCall → Revealed → Db → Type 0
IsSettled platform call r db =
    (s : GameSession) × (locate call db ≡ ok (record { session = s; proof = r.proof }))
    × (is_revealed r.proof.status ≡ true)
    × (r.proof.evaluation_fingerprint ≡ some (evaluation_fingerprint platform call))
    × (outcome_id : ℕ) × (r.proof.outcome_id ≡ some outcome_id)
    × (get_outcome outcome_id db ≡ some r.outcome)
    × (lock_reward_by_session r.proof.session_id db ≡ some r.reward)

-- The test of the first key alone is weaker than the test of both.
either-first : (a b : Bool) → (a || b) ≡ false → a ≡ false
either-first a b e = ground arith

either-second : (a b : Bool) → (a || b) ≡ false → b ≡ false
either-second a b e = ground arith

module _ (platform : Platform) (call : EvaluateCall) (at : Located) (drawn : Drawn)
    (previous : FairnessProofEvent) (db : Db) where
  abbrev after : Db
  after = revealed_db platform call at.session at.proof drawn previous db

  pub get_outcome-after :
      IsFree call at.session at.proof db
      → get_outcome call.outcome_id after ≡ some (spin_outcome call at.session drawn)
  unfolding get_outcome
  get_outcome-after (free, unpaid, unclaimed) =
      find?-append_new (λ (o : Outcome). o.id == call.outcome_id) db.outcomes
        {a = spin_outcome call at.session drawn}
        (find?-any (λ (o : Outcome). o.id == call.outcome_id)
          (λ (o : Outcome). o.id == call.outcome_id || o.session_id == at.session.id) db.outcomes
          free (λ o e. either-first (o.id == call.outcome_id) (o.session_id == at.session.id) e))
        (==_refl call.outcome_id)

  lock_reward-after :
      IsFree call at.session at.proof db
      → lock_reward_by_session at.session.id after ≡ some (spin_reward call at.session drawn)
  unfolding lock_reward_by_session
  lock_reward-after (free, unpaid, unclaimed) =
      rw
        (find?-append_new (λ (o : Outcome). o.session_id == at.session.id) db.outcomes
          {a = spin_outcome call at.session drawn}
          (find?-any (λ (o : Outcome). o.session_id == at.session.id)
            (λ (o : Outcome). o.id == call.outcome_id || o.session_id == at.session.id) db.outcomes
            free (λ o e. either-second (o.id == call.outcome_id) (o.session_id == at.session.id) e))
          (==_refl at.session.id))
        (find?-append_new (λ (r : Reward). same_key r.outcome_id (some call.outcome_id)) db.rewards
          {a = spin_reward call at.session drawn}
          (find?-any (λ (r : Reward). same_key r.outcome_id (some call.outcome_id))
            (λ (r : Reward). r.id == call.reward_id || same_key r.outcome_id (some call.outcome_id))
            db.rewards unpaid
            (λ r e.
              either-second (r.id == call.reward_id) (same_key r.outcome_id (some call.outcome_id))
                e))
          (==_refl call.outcome_id))

  pub IsLocated-after :
      IsLocated call at db
      → IsLocated call
          (record {
            session = ended SessionStatus.completed call.now at.session;
            proof = revealed_proof platform call at.proof drawn;
          })
          after
  unfolding lock_session
  IsLocated-after (held, own, locked) = (
    find?-replace_where (λ (p : FairnessProof). p.id) (λ (p : FairnessProof). p.id == call.proof_id)
        (revealed_proof platform call at.proof drawn) db.proofs {b = at.proof} held refl
        ((==_iff at.proof.id call.proof_id).1
          (find?-key (λ (p : FairnessProof). p.id) call.proof_id db.proofs {a = at.proof} held)),
    own,
    lock_session-replace at.proof.session_id (ended SessionStatus.completed call.now at.session)
        at.session db.sessions locked refl,
  )

IsAgain-IsSettled :
    (platform : Platform) (call : EvaluateCall) (at : Located) (r : Revealed) (db durable : Db)
    → locate call db ≡ ok at
    → IsAgain platform call at r db durable
    → IsSettled platform call r durable
IsAgain-IsSettled platform call at r db durable found
      (shown, same, own_print, outcome_id, outcome, stored, issued, kept) =
    rw (kept, same) (at.session, found, shown, own_print, outcome_id, outcome, stored, issued)

IsReveal-IsSettled :
    (platform : Platform) (call : EvaluateCall) (at : Located) (r : Revealed) (db durable : Db)
    → IsLocated call at db
    → IsReveal platform call at r db durable
    → IsSettled platform call r durable
IsReveal-IsSettled platform call at r db durable (held, own, locked)
      (pending, active, early, (drawn, made, previous, before, free, answer, changed)) =
    let s = ended SessionStatus.completed call.now at.session in
    let after = revealed_db platform call at.session at.proof drawn previous db in
    let settled : IsSettled platform call (revealed_of platform call at drawn) after = (
      s,
      IsLocated-locate call
          (record { session = s; proof = revealed_proof platform call at.proof drawn }) after
          (IsLocated-after platform call at drawn previous db (held, own, locked)),
      refl,
      refl,
      call.outcome_id,
      refl,
      get_outcome-after platform call at drawn previous db free,
      ap (λ id. lock_reward_by_session id after)
            (sym (lock_session-id at.proof.session_id db {s = at.session} locked))
          ∙ lock_reward-after platform call at drawn previous db free,
    ) in
    rw (changed, answer) settled

evaluated-IsSettled :
    (platform : Platform) (call : EvaluateCall) (db : Db) {r : Revealed}
    → (evaluate_fairness platform call db).result ≡ ok r
    → IsSettled platform call r (evaluate_fairness platform call db).durable
evaluated-IsSettled platform call db {r} e =
    let (at, found, done) = evaluate_fairness-IsRecorded platform call db {r = r} e in
    let after = (evaluate_fairness platform call db).durable in
    elim done [
      | inl again ↦ IsAgain-IsSettled platform call at r db after found again
      | inr shown ↦
          IsReveal-IsSettled platform call at r db after (locate-IsLocated call db {at = at} found)
            shown
    ]

settled-again :
    (platform : Platform) (call : EvaluateCall) (db : Db) (r : Revealed)
    → IsSettled platform call r db
    → evaluate_fairness platform call db ≡ committed r db
unfolding evaluate_fairness evaluate_located evaluate_revealed reveal_again
settled-again platform call db r (s, found, shown, print, outcome_id, outcome, stored, issued) =
    rw
      (
        found,
        shown,
        print,
        ==ˢ_refl (evaluation_fingerprint platform call),
        outcome,
        stored,
        issued,
        evaluate_fairness,
        evaluate_located,
        evaluate_revealed,
        reveal_again,
      )
      refl

-- An evaluation repeated with the same client seed, at any later time and whatever keys are drawn for new
-- rows, is answered with the same outcome, reward and proof, and changes nothing.
pub evaluate_fairness_once :
    (platform : Platform) (call again : EvaluateCall) (db : Db) {r : Revealed}
    → (evaluate_fairness platform call db).result ≡ ok r
    → again.proof_id ≡ call.proof_id
    → again.owner_id ≡ call.owner_id
    → again.client_seed ≡ call.client_seed
    → let after = (evaluate_fairness platform call db).durable in
      evaluate_fairness platform again after ≡ committed r after
unfolding locate
evaluate_fairness_once platform call again db {r} e same_proof same_owner same_seed =
    settled-again platform again (evaluate_fairness platform call db).durable r
      (rw (same_proof, same_owner, same_seed) (evaluated-IsSettled platform call db {r = r} e))

-- After an evaluation, a request for the same proof by its owner with another fingerprint is refused as a
-- conflict, and changes nothing: the client seed of a revealed proof cannot be changed.
pub evaluate_fairness_conflict :
    (platform : Platform) (call again : EvaluateCall) (db : Db) {r : Revealed}
    → (evaluate_fairness platform call db).result ≡ ok r
    → again.proof_id ≡ call.proof_id
    → again.owner_id ≡ call.owner_id
    → evaluation_fingerprint platform call ≢ evaluation_fingerprint platform again
    → let after = (evaluate_fairness platform call db).durable in
      evaluate_fairness platform again after ≡ rolled_back idempotency_conflict after
unfolding evaluate_fairness evaluate_located evaluate_revealed reveal_again locate
evaluate_fairness_conflict platform call again db {r} e same_proof same_owner other =
    let (s, found, shown, print, _, _, _, _) = evaluated-IsSettled platform call db {r = r} e in
    let after = (evaluate_fairness platform call db).durable in
    let located : locate again after ≡ ok (record { session = s; proof = r.proof }) =
      rw (same_proof, same_owner) found in
    rw
      (
        located,
        shown,
        print,
        ==ˢ_ne (evaluation_fingerprint platform call) (evaluation_fingerprint platform again) other,
        evaluate_fairness,
        evaluate_located,
        evaluate_revealed,
        reveal_again,
      )
      refl
