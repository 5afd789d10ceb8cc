-- ===== src/Leaderboards/Recorded.antt =====
-- The branches of `submit_final_score` in app/services/leaderboards.py.
use python_rng_game_platform.Base.{
  ◌≡◌, ◌⊎◌, refl, sym, ap, ◌∙◌, inl, inr, true, false, Option-cases, none, some, ok, Result-cases,
  arith, [], ◌∷◌, ◌++◌, ltb,
}
use python_rng_game_platform.Models.Rows.{Game, GameSession, FinalScore}
use python_rng_game_platform.Store.{Db, get_game_by_id}
use python_rng_game_platform.Store.Lookups.{lock_session-id}
use python_rng_game_platform.Store.Evidence.{add_audit, add_event}
use python_rng_game_platform.Store.Leaderboards.{
  get_final_score_by_session, advance_revision, add_final_score, final_score_audit,
  final_score_event, add_final_score_evidence,
}
use python_rng_game_platform.Sessions.{owned_session}
use python_rng_game_platform.Gameplay.Once.{owned_session-inv}
use python_rng_game_platform.Leaderboards.{
  SubmitCall, Submitted, Scored, derive_score, record_score, submit_new, submit_again, submit_owned,
  submit_final_score,
}

-- The tables after a submission: the score with its revision, an audit record and an event.
abbrev pub scored_db : Scored → Db → Db
scored_db scored db = record db {
  scores = db.scores ++ scored.score ∷ [];
  revisions = advance_revision scored.score.game_id scored.score.period_start db.revisions;
  audits = db.audits ++ final_score_audit scored.score scored.game.key ∷ [];
  analytics = db.analytics ++ final_score_event scored.score scored.game.key ∷ [];
}

record_score-inv :
    (scored : Scored) (db : Db) {work : Db}
    → record_score scored db ≡ ok work
    → (work ≡ scored_db scored db) × (ltb 1000000 scored.score.final_score ≡ false)
unfolding record_score add_final_score add_final_score_evidence add_event add_audit
record_score-inv scored db {work} e = (ground arith, ground arith)

-- A score that the session has.
abbrev pub IsStored : GameSession → Submitted → Db → Db → Type 0
IsStored s a db durable =
    (get_final_score_by_session s.id db ≡ some a.score)
    × (game : Game) × (get_game_by_id s.game_id db ≡ some game)
    × (a ≡ record { score = a.score; is_new = false; game_key = game.key })
    × (durable ≡ db)

-- A new score.
abbrev pub IsScored : SubmitCall → GameSession → Submitted → Db → Db → Type 0
IsScored call s a db durable =
    (get_final_score_by_session s.id db ≡ none)
    × (scored : Scored) × (derive_score call s db ≡ ok scored)
    × (a ≡ record { score = scored.score; is_new = true; game_key = scored.game.key })
    × (ltb 1000000 scored.score.final_score ≡ false)
    × (durable ≡ scored_db scored db)

submit_new-recorded :
    (call : SubmitCall) (s : GameSession) (db : Db) {a : Submitted}
    → (submit_new call s db).result ≡ ok a
    → (scored : Scored) × (derive_score call s db ≡ ok scored)
      × (a ≡ record { score = scored.score; is_new = true; game_key = scored.game.key })
      × (ltb 1000000 scored.score.final_score ≡ false)
      × ((submit_new call s db).durable ≡ scored_db scored db)
unfolding submit_new
submit_new-recorded call s db {a} e = elim (Result-cases (derive_score call s db)) [
  | inr (x, failed) ↦ absurd (ground arith)
  | inl (scored, derived) ↦ elim (Result-cases (record_score scored db)) [
    | inr (x, failed) ↦ absurd (ground arith)
    | inl (work, recorded) ↦
        let (shape, bounded) = record_score-inv scored db {work = work} recorded in
        (scored, derived, ground arith, bounded, rw (derived, recorded, submit_new) shape)
  ]
]

submit_again-stored :
    (s : GameSession) (existing : FinalScore) (db : Db) {a : Submitted}
    → (submit_again s existing db).result ≡ ok a
    → (game : Game) × (get_game_by_id s.game_id db ≡ some game)
      × (a ≡ record { score = existing; is_new = false; game_key = game.key })
      × ((submit_again s existing db).durable ≡ db)
unfolding submit_again
submit_again-stored s existing db {a} e = elim (Option-cases (get_game_by_id s.game_id db)) [
  | inl missing ↦ absurd (ground arith)
  | inr (game, found) ↦ (game, found, ground arith, rw (found, submit_again) refl)
]

-- What a submission that answers is: on the caller's own session, a stored score or a new one.
abbrev pub IsRecorded : SubmitCall → Submitted → Db → Db → Type 0
IsRecorded call a db durable =
    (s : GameSession) × (owned_session call.session_id call.owner_id db ≡ ok s)
    × (IsStored s a db durable ⊎ IsScored call s a db durable)

submit_owned-IsRecorded :
    (call : SubmitCall) (s : GameSession) (db : Db) {a : Submitted}
    → s.id ≡ call.session_id
    → (submit_owned call s db).result ≡ ok a
    → IsStored s a db (submit_owned call s db).durable
      ⊎ IsScored call s a db (submit_owned call s db).durable
unfolding submit_owned
submit_owned-IsRecorded call s db {a} same e =
    elim (Option-cases (get_final_score_by_session call.session_id db)) [
      | inr (existing, stored) ↦
          let step : submit_owned call s db ≡ submit_again s existing db =
            rw (stored, submit_owned) refl in
          let (game, found, answer, kept) =
            submit_again-stored s existing db {a = a} (rw step at e) in
          let held = ap (λ id. get_final_score_by_session id db) same ∙ stored in
          inl (
            held ∙ ap (λ (x : Submitted). some x.score) (sym answer),
            game,
            found,
            answer
                ∙ ap (λ (x : FinalScore). record { score = x; is_new = false; game_key = game.key })
                    (ap (λ (x : Submitted). x.score) (sym answer)),
            rw step kept,
          )
      | inl without ↦
          let step : submit_owned call s db ≡ submit_new call s db =
            rw (without, submit_owned) refl in
          let (scored, derived, answer, bounded, shape) =
            submit_new-recorded call s db {a = a} (rw step at e) in
          inr (
            ap (λ id. get_final_score_by_session id db) same ∙ without,
            scored,
            derived,
            answer,
            bounded,
            rw step shape,
          )
    ]

-- An answered submission on the caller's own session.
pub submit_final_score-IsRecorded :
    (call : SubmitCall) (db : Db) {a : Submitted}
    → (submit_final_score call db).result ≡ ok a
    → IsRecorded call a db (submit_final_score call db).durable
unfolding submit_final_score
submit_final_score-IsRecorded call db {a} e =
    elim (Result-cases (owned_session call.session_id call.owner_id db)) [
      | inr (x, failed) ↦ absurd (ground arith)
      | inl (s, found) ↦
          let same =
            lock_session-id call.session_id db {s = s}
              (owned_session-inv call.session_id call.owner_id db {s = s} found).0 in
          let step : submit_final_score call db ≡ submit_owned call s db =
            rw (found, submit_final_score) refl in
          (s, found, rw step (submit_owned-IsRecorded call s db {a = a} same (rw step at e)))
    ]
