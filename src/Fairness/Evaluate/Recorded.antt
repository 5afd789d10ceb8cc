-- ===== src/Fairness/Evaluate/Recorded.antt =====
-- The branches of `evaluate_fairness` in app/services/fairness.py.
use python_rng_game_platform.Base.{
  ℕ, ◌≡◌, ◌⊎◌, refl, ap, ◌∙◌, sym, inl, inr, true, false, Bool-cases, Option, none, some, ok,
  Result-cases, >>=-eq-ok, ok_inj, arith, Text, ==ˢ-sound,
}
use python_rng_game_platform.Models.Errors.{invalid_transition}
use python_rng_game_platform.Models.Rows.{
  Outcome, Reward, FairnessProof, FairnessProofEvent, is_active_session, is_committed,
}
use python_rng_game_platform.Store.{Db, get_outcome, lock_reward_by_session}
use python_rng_game_platform.Platform.{Platform}
use python_rng_game_platform.Sessions.{is_due, finalize_session, Finalized, previous_event}
use python_rng_game_platform.Sessions.Endings.{finalize_session-unchanged}
use python_rng_game_platform.Fairness.Evaluate.{
  EvaluateCall, evaluation_fingerprint, Revealed, Located, require, locate, is_revealed, is_text,
  rows_of, reveal_again, Drawn, draw, record_reveal, revealed_of, reveal, evaluate_finalized,
  evaluate_unrevealed, evaluate_revealed, evaluate_located, evaluate_fairness, require-inv,
}
use python_rng_game_platform.Fairness.Evaluate.Rows.{IsFree, revealed_db, record_reveal-inv}

-- A revealed proof that is answered again: the request has the fingerprint of the one that revealed it,
-- the answer is the stored outcome and reward, and nothing changes.
abbrev pub IsAgain : Platform → EvaluateCall → Located → Revealed → Db → Db → Type 0
IsAgain platform call at r db durable =
    (is_revealed at.proof.status ≡ true)
    × (r.proof ≡ at.proof)
    × (at.proof.evaluation_fingerprint ≡ some (evaluation_fingerprint platform call))
    × (outcome_id : ℕ) × (at.proof.outcome_id ≡ some outcome_id)
    × (get_outcome outcome_id db ≡ some r.outcome)
    × (lock_reward_by_session at.proof.session_id db ≡ some r.reward)
    × (durable ≡ db)

-- The facts of a reveal behind its guards.
abbrev pub DrawnAndRecorded : Platform → EvaluateCall → Located → Revealed → Db → Db → Type 0
DrawnAndRecorded platform call at r db durable =
    (drawn : Drawn) × (draw platform call at.proof db ≡ ok drawn)
    × (previous : FairnessProofEvent) × (previous_event at.proof.id db ≡ ok previous)
    × IsFree call at.session at.proof db
    × (r ≡ revealed_of platform call at drawn)
    × (durable ≡ revealed_db platform call at.session at.proof drawn previous db)

-- A committed proof of an active session that is not due: drawn and revealed.
abbrev pub IsReveal : Platform → EvaluateCall → Located → Revealed → Db → Db → Type 0
IsReveal platform call at r db durable =
    (is_committed at.proof.status ≡ true)
    × (is_active_session at.session.status ≡ true)
    × (is_due at.session call.now ≡ false)
    × DrawnAndRecorded platform call at r db durable

is_text_sound : (o : Option Text) (t : Text) → is_text o t ≡ true → o ≡ some t
is_text_sound none t e = cc
is_text_sound (some s) t e = ap some (==ˢ-sound s t e)

rows_of-inv :
    (o : Option Outcome) (w : Option Reward) (p : FairnessProof) {r : Revealed}
    → rows_of o w p ≡ ok r
    → (o ≡ some r.outcome) × (w ≡ some r.reward) × (r.proof ≡ p)
rows_of-inv none w p e = cc
rows_of-inv (some o) none p e = cc
rows_of-inv (some o) (some w) p {r} e =
    let same = ok_inj e in
    (
      ap (λ (x : Revealed). some x.outcome) same,
      ap (λ (x : Revealed). some x.reward) same,
      ap (λ (x : Revealed). x.proof) (sym same),
    )

evaluate_revealed-IsAgain :
    (platform : Platform) (call : EvaluateCall) (at : Located) (db : Db) {r : Revealed}
    → is_revealed at.proof.status ≡ true
    → (evaluate_revealed platform call at.proof db).result ≡ ok r
    → IsAgain platform call at r db (evaluate_revealed platform call at.proof db).durable
unfolding evaluate_revealed reveal_again
evaluate_revealed-IsAgain platform call at db {r} shown e =
    elim (Result-cases (reveal_again platform call at.proof db)) [
      | inr (x, failed) ↦ absurd (ground arith)
      | inl (answer, found) ↦
          let same : answer ≡ r = ground arith in
          elim (Bool-cases
            (is_text at.proof.evaluation_fingerprint (evaluation_fingerprint platform call))) [
              | inr other ↦ absurd (ground arith)
              | inl own ↦
                  let rows = λ (id : ℕ).
                    rows_of (get_outcome id db) (lock_reward_by_session at.proof.session_id db)
                      at.proof in
                  let (outcome_id, held, e1) =
                    >>=-eq-ok (require at.proof.outcome_id invalid_transition) rows
                      (rw (own, reveal_again) at found) in
                  let (stored, issued, kept) =
                    rows_of-inv (get_outcome outcome_id db)
                      (lock_reward_by_session at.proof.session_id db) at.proof {r = answer} e1 in
                  (
                    shown,
                    ap (λ (x : Revealed). x.proof) (sym same) ∙ kept,
                    is_text_sound at.proof.evaluation_fingerprint
                        (evaluation_fingerprint platform call) own,
                    outcome_id,
                    require-inv at.proof.outcome_id invalid_transition held,
                    stored ∙ ap (λ (x : Revealed). some x.outcome) same,
                    issued ∙ ap (λ (x : Revealed). some x.reward) same,
                    rw (found, evaluate_revealed) refl,
                  )
            ]
    ]

reveal-recorded :
    (platform : Platform) (call : EvaluateCall) (at : Located) (db : Db) {r : Revealed}
    → (reveal platform call at db db).result ≡ ok r
    → DrawnAndRecorded platform call at r db (reveal platform call at db db).durable
unfolding reveal
reveal-recorded platform call at db {r} e = elim (Result-cases (draw platform call at.proof db)) [
  | inr (x, failed) ↦ absurd (ground arith)
  | inl (drawn, made) ↦
      elim (Result-cases (record_reveal platform call at.session at.proof drawn db)) [
        | inr (x, failed) ↦ absurd (ground arith)
        | inl (after, recorded) ↦
            let (previous, before, free, shape) =
              record_reveal-inv platform call at.session at.proof drawn db {work = after}
                recorded in
            (drawn, made, previous, before, free, ground arith, rw (made, recorded, reveal) shape)
      ]
]

evaluate_finalized-reveal :
    (platform : Platform) (call : EvaluateCall) (at : Located) (db : Db) (fin : Finalized)
    {r : Revealed}
    → (evaluate_finalized platform call at db fin).result ≡ ok r
    → (fin.changed ≡ false)
      × (is_committed at.proof.status ≡ true)
      × (is_active_session at.session.status ≡ true)
      × (evaluate_finalized platform call at db fin ≡ reveal platform call at db fin.work)
unfolding evaluate_finalized
evaluate_finalized-reveal platform call at db fin {r} e = elim (Bool-cases fin.changed) [
  | inl changed ↦ absurd (ground arith)
  | inr same ↦ elim (Bool-cases (is_committed at.proof.status)) [
    | inr other ↦ absurd (ground arith)
    | inl held ↦ elim (Bool-cases (is_active_session at.session.status)) [
      | inr over ↦ absurd (ground arith)
      | inl active ↦ (same, held, active, rw (same, held, active, evaluate_finalized) refl)
    ]
  ]
]

evaluate_unrevealed-IsReveal :
    (platform : Platform) (call : EvaluateCall) (at : Located) (db : Db) {r : Revealed}
    → (evaluate_unrevealed platform call at db).result ≡ ok r
    → IsReveal platform call at r db (evaluate_unrevealed platform call at db).durable
unfolding evaluate_unrevealed
evaluate_unrevealed-IsReveal platform call at db {r} e =
    let lock = λ (_ : Db). some at.proof in
    elim (Result-cases (finalize_session platform lock at.session call.now db)) [
      | inr (x, failed) ↦ absurd (ground arith)
      | inl (fin, done) ↦
          let opened = rw (done, evaluate_unrevealed) at e in
          let (same, held, active, step) =
            evaluate_finalized-reveal platform call at db fin {r = r} opened in
          let (early, kept) =
            finalize_session-unchanged platform lock at.session call.now db {fin = fin} done same in
          let all : evaluate_unrevealed platform call at db ≡ reveal platform call at db db =
            rw (done, evaluate_unrevealed) (step ∙ ap (reveal platform call at db) kept) in
          let recorded : DrawnAndRecorded platform call at r db
              (evaluate_unrevealed platform call at db).durable =
            rw all (reveal-recorded platform call at db {r = r} (rw all at e)) in
          (held, active, early, recorded)
    ]

-- What an evaluation that answers is.
abbrev pub IsRecorded : Platform → EvaluateCall → Revealed → Db → Db → Type 0
IsRecorded platform call r db durable =
    (at : Located) × (locate call db ≡ ok at)
    × (IsAgain platform call at r db durable ⊎ IsReveal platform call at r db durable)

-- An answered evaluation of the caller's own proof.
pub evaluate_fairness-IsRecorded :
    (platform : Platform) (call : EvaluateCall) (db : Db) {r : Revealed}
    → (evaluate_fairness platform call db).result ≡ ok r
    → IsRecorded platform call r db (evaluate_fairness platform call db).durable
unfolding evaluate_fairness evaluate_located
evaluate_fairness-IsRecorded platform call db {r} e = elim (Result-cases (locate call db)) [
  | inr (x, failed) ↦ absurd (ground arith)
  | inl (at, found) ↦ elim (Bool-cases (is_revealed at.proof.status)) [
    | inl shown ↦
        let step : evaluate_fairness platform call db
            ≡ evaluate_revealed platform call at.proof db =
          rw (found, shown, evaluate_fairness, evaluate_located) refl in
        (
          at,
          found,
          inl (
              rw step (evaluate_revealed-IsAgain platform call at db {r = r} shown (rw step at e))),
        )
    | inr hidden ↦
        let step : evaluate_fairness platform call db ≡ evaluate_unrevealed platform call at db =
          rw (found, hidden, evaluate_fairness, evaluate_located) refl in
        (
          at,
          found,
          inr (rw step (evaluate_unrevealed-IsReveal platform call at db {r = r} (rw step at e))),
        )
  ]
]
