-- ===== src/Leaderboards/Once.antt =====
-- `submit_final_score` of app/services/leaderboards.py: what it writes, and that it writes once.
use python_rng_game_platform.Leaderboards.Recorded.{
  scored_db, IsStored, submit_final_score-IsRecorded, IsScored,
}
use python_rng_game_platform.Base.{
  ◌≡◌, ◌⊎◌, refl, sym, ap, ◌∙◌, inl, inr, true, false, none, some, ok, arith, [], ◌∷◌, ◌++◌, ◌==◌,
  ==_refl, suc, ◌≤◌, ==_iff,
}
use python_rng_game_platform.Models.Rows.{Game, GameSession, FinalScore}
use python_rng_game_platform.Store.{Db, committed, lock_session, get_game_by_id}
use python_rng_game_platform.Store.Lookups.{find?-append_new, lock_session-id}
use python_rng_game_platform.Store.Leaderboards.{
  get_final_score_by_session, advance_revision, final_score_audit, final_score_event,
  leaderboard_projection_revision,
}
use python_rng_game_platform.Sessions.{owned_session}
use python_rng_game_platform.Gameplay.Once.{owned_session-inv}
use python_rng_game_platform.Leaderboards.{
  SubmitCall, Submitted, Scored, derive_score, submit_again, submit_owned, submit_final_score,
}
use python_rng_game_platform.Leaderboards.Derived.{
  IsDerived, derive_score-IsDerived, advance_revision-next,
}

derive_score-inv :
    (call : SubmitCall) (s : GameSession) (db : Db) {scored : Scored}
    → derive_score call s db ≡ ok scored
    → (get_game_by_id s.game_id db ≡ some scored.game) × (scored.score.session_id ≡ s.id)
unfolding derive_score
derive_score-inv call s db {scored} e = (ground arith, ground arith)

-- A new score: derived, bounded, and written with the next revision of its period, an audit record and an
-- event.
abbrev pub IsNew : SubmitCall → GameSession → Submitted → Db → Db → Type 0
IsNew call s a db durable =
    (get_final_score_by_session s.id db ≡ none)
    × IsDerived call s a.score a.game_key db
    × (a.is_new ≡ true)
    × (a.score.final_score ≤ 1000000)
    × (durable ≡ record db {
      scores = db.scores ++ a.score ∷ [];
      revisions = advance_revision a.score.game_id a.score.period_start db.revisions;
      audits = db.audits ++ final_score_audit a.score a.game_key ∷ [];
      analytics = db.analytics ++ final_score_event a.score a.game_key ∷ [];
    })
    × (leaderboard_projection_revision a.score.game_id a.score.period_start durable
        ≡ suc (leaderboard_projection_revision a.score.game_id a.score.period_start db))

-- What a submission that answers is: on the caller's own session, a stored score or a new one.
abbrev pub IsSubmitted : SubmitCall → Submitted → Db → Db → Type 0
IsSubmitted call a db durable =
    (s : GameSession) × (lock_session call.session_id db ≡ some s)
    × (s.player_id ≡ call.owner_id)
    × (IsStored s a db durable ⊎ IsNew call s a db durable)

IsScored-IsNew :
    (call : SubmitCall) (s : GameSession) (a : Submitted) (db durable : Db)
    → IsScored call s a db durable
    → IsNew call s a db durable
unfolding leaderboard_projection_revision
IsScored-IsNew call s a db durable (without, scored, derived, answer, bounded, shape) =
    let made : IsNew call s
        (record { score = scored.score; is_new = true; game_key = scored.game.key }) db
        (scored_db scored db) =
      (
        without,
        derive_score-IsDerived call s db {scored = scored} derived,
        refl,
        ground arith,
        refl,
        advance_revision-next scored.score.game_id scored.score.period_start db.revisions,
      ) in
    rw (answer, shape) made

-- A submission that answers found the caller's own session. If the session has a score, that score is
-- answered as not new and nothing changes. Otherwise the player is active, the game has a leaderboard, the
-- session is completed with an accepted outcome, and the week that contains its end is not over; the answer
-- is new: the score that the rules give this outcome under the session's configuration, at most a million,
-- in the period of the session's end. Exactly these rows are written: the score, the next revision of its
-- game and period, an audit record and an analytics event.
pub submit_final_score_effect :
    (call : SubmitCall) (db : Db) {a : Submitted}
    → (submit_final_score call db).result ≡ ok a
    → IsSubmitted call a db (submit_final_score call db).durable
submit_final_score_effect call db {a} e =
    let (s, owned, done) = submit_final_score-IsRecorded call db {a = a} e in
    let (locked, own) = owned_session-inv call.session_id call.owner_id db {s = s} owned in
    (
      s,
      locked,
      (==_iff s.player_id call.owner_id).0 own,
      elim done [
        | inl stored ↦ inl stored
        | inr scored ↦ inr (IsScored-IsNew call s a db (submit_final_score call db).durable scored)
      ],
    )

submit_stored :
    (call : SubmitCall) (s : GameSession) (existing : FinalScore) (game : Game) (db : Db)
    → owned_session call.session_id call.owner_id db ≡ ok s
    → get_final_score_by_session call.session_id db ≡ some existing
    → get_game_by_id s.game_id db ≡ some game
    → submit_final_score call db
      ≡ committed (record { score = existing; is_new = false; game_key = game.key }) db
unfolding submit_final_score submit_owned submit_again
submit_stored call s existing game db owned stored found =
    rw (owned, stored, found, submit_final_score, submit_owned, submit_again) refl

-- A submission repeated for the same session by its owner, at any time and whatever key is drawn, answers
-- the same score and game as not new, and changes nothing; also when the period has closed since.
pub submit_final_score_once :
    (call again : SubmitCall) (db : Db) {a : Submitted}
    → (submit_final_score call db).result ≡ ok a
    → again.session_id ≡ call.session_id
    → again.owner_id ≡ call.owner_id
    → let after = (submit_final_score call db).durable in
      submit_final_score again after ≡ committed (record a { is_new = false }) after
unfolding owned_session lock_session get_game_by_id get_final_score_by_session
submit_final_score_once call again db {a} e same_session same_owner =
    let (s, owned, done) = submit_final_score-IsRecorded call db {a = a} e in
    let numbered =
      lock_session-id call.session_id db {s = s}
        (owned_session-inv call.session_id call.owner_id db {s = s} owned).0 in
    let owned_again : owned_session again.session_id again.owner_id db ≡ ok s =
      rw (same_session, same_owner) owned in
    elim done [
      | inl (stored, game, found, answer, kept) ↦ rw kept (
          submit_stored again s a.score game db owned_again
            (ap (λ id. get_final_score_by_session id db) (same_session ∙ sym numbered) ∙ stored)
            found
          ∙ ap (λ key. committed (record { score = a.score; is_new = false; game_key = key }) db)
              (ap (λ (x : Submitted). x.game_key) (sym answer)))
      | inr (without, scored, derived, answer, bounded, shape) ↦
          let (found, own) = derive_score-inv call s db {scored = scored} derived in
          let stored : get_final_score_by_session s.id (scored_db scored db) ≡ some scored.score =
            find?-append_new (λ (x : FinalScore). x.session_id == s.id) db.scores {a = scored.score}
              without (rw own (==_refl s.id)) in
          rw shape (
            submit_stored again s scored.score scored.game (scored_db scored db) owned_again
              (ap (λ id. get_final_score_by_session id (scored_db scored db))
                  (same_session ∙ sym numbered)
                ∙ stored)
              found
            ∙ ap (λ (x : Submitted). committed (record x { is_new = false }) (scored_db scored db))
                (sym answer))
    ]
