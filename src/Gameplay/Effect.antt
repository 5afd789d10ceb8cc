-- ===== src/Gameplay/Effect.antt =====
-- What an answered play of app/services/gameplay.py did to the database.
use python_rng_game_platform.Base.{
  ℕ, ◌≡◌, ◌⊎◌, refl, ap, ◌∙◌, inl, inr, true, false, Bool, Bool-cases, Option, none, some, ok,
  Result-cases, >>=-eq-ok, ok_inj, arith,
}
use python_rng_game_platform.Models.Rows.{
  Game, GameSession, SessionStatus, Outcome, is_active_session,
}
use python_rng_game_platform.GameRules.{PlayIntent}
use python_rng_game_platform.GameRules.Registry.{rules_for}
use python_rng_game_platform.Store.{
  Db, get_outcome_by_session, get_game_by_id, lock_fairness_proof_by_session,
}
use python_rng_game_platform.Platform.{Platform}
use python_rng_game_platform.Sessions.{is_due, finalize_expired_session, Finalized, owned_session}
use python_rng_game_platform.Sessions.Endings.{finalize_session-unchanged}
use python_rng_game_platform.Claims.{as_invalid_play, reward_value}
use python_rng_game_platform.Gameplay.Rows.{outcome_of, played_db, record_play-inv}
use python_rng_game_platform.Gameplay.{
  PlayCall, Evaluated, evaluate_play, record_play, play_active, replay, replay_at, replay_verdict,
  replay_found, judge_replay, replayed, play_finalized, play_owned, play_session,
}

-- A completed session whose stored outcome is answered again, and nothing changes.
abbrev pub IsReplay : GameSession → Outcome → Db → Db → Type 0
IsReplay s o db durable =
    (s.status ≡ SessionStatus.completed)
    × (get_outcome_by_session s.id db ≡ some o)
    × (durable ≡ db)

-- An active session that is played: the rules evaluate it and value its outcome, and the tables take
-- the rows of that play.
abbrev pub IsPlay : Platform → GameSession → PlayCall → Outcome → Db → Db → Type 0
IsPlay platform s call o db durable =
    (is_active_session s.status ≡ true)
    × (play : Evaluated) × (value : ℕ) × (evaluate_play platform s call db ≡ ok play)
    × (reward_value play.config (outcome_of s call play) play.game.key ≡ ok value)
    × (o ≡ outcome_of s call play)
    × (durable ≡ played_db s call play value db)

play_active-IsPlay :
    (platform : Platform) (s : GameSession) (call : PlayCall) (db : Db) {o : Outcome}
    → is_active_session s.status ≡ true
    → (play_active platform s call db db).result ≡ ok o
    → IsPlay platform s call o db (play_active platform s call db db).durable
unfolding play_active
play_active-IsPlay platform s call db {o} active e =
    elim (Result-cases (evaluate_play platform s call db)) [
      | inr (x, failed) ↦ absurd (ground arith)
      | inl (play, evaluated) ↦ elim (Result-cases (record_play s call play db)) [
        | inr (x, failed) ↦ absurd (ground arith)
        | inl (after, recorded) ↦
            let (value, worth, shape) = record_play-inv s call play db {work = after} recorded in
            (
              active,
              play,
              value,
              evaluated,
              worth,
              ground arith,
              rw (evaluated, recorded, play_active) shape,
            )
      ]
    ]

judge_replay-inv :
    (verdict : Option Bool) (stored : Outcome) {o : Outcome}
    → judge_replay verdict stored ≡ ok o
    → stored ≡ o
judge_replay-inv (some true) stored e = ok_inj e
judge_replay-inv (some false) stored e = cc
judge_replay-inv none stored e = cc

replay_found-inv :
    (game : Option Game) (stored : Option Outcome) (intent : PlayIntent) {o : Outcome}
    → replay_found game stored intent ≡ ok o
    → stored ≡ some o
replay_found-inv (some game) (some stored) intent {o} e =
    let ruled =
      >>=-eq-ok (as_invalid_play (rules_for game.key))
        (λ registered_game. judge_replay (replay_verdict registered_game stored intent) stored) e in
    ap some (judge_replay-inv (replay_verdict ruled.0 stored intent) stored ruled.2)
replay_found-inv none stored intent e = cc
replay_found-inv (some game) none intent e = cc

replay_at-inv :
    (status : SessionStatus) (s : GameSession) (intent : PlayIntent) (db : Db) {o : Outcome}
    → replay_at status s intent db ≡ ok o
    → (status ≡ SessionStatus.completed) × (get_outcome_by_session s.id db ≡ some o)
unfolding replay_at
replay_at-inv SessionStatus.completed s intent db {o} e = (
  refl,
  replay_found-inv (get_game_by_id s.game_id db) (get_outcome_by_session s.id db) intent {o = o} e,
)
replay_at-inv SessionStatus.active s intent db e = cc
replay_at-inv SessionStatus.expired s intent db e = cc
replay_at-inv SessionStatus.cancelled s intent db e = cc

replayed-IsReplay :
    (s : GameSession) (call : PlayCall) (db : Db) {o : Outcome}
    → (replayed s call db db).result ≡ ok o
    → IsReplay s o db (replayed s call db db).durable
unfolding replayed replay
replayed-IsReplay s call db {o} e = elim (Result-cases (replay s call.intent db)) [
  | inr (x, failed) ↦ absurd (ground arith)
  | inl (stored, found) ↦
      let (completed, kept) = replay_at-inv s.status s call.intent db {o = stored} found in
      (completed, kept ∙ ap some (ground arith), rw (found, replayed) refl)
]

-- What a play that answers is: a replay or a play, on the caller's own session that is not due.
abbrev pub IsAnswered : Platform → PlayCall → Outcome → Db → Db → Type 0
IsAnswered platform call o db durable =
    (s : GameSession) × (owned_session call.session_id call.owner_id db ≡ ok s)
    × (is_due s call.now ≡ false)
    × (IsReplay s o db durable ⊎ IsPlay platform s call o db durable)

play_finalized-IsAnswered :
    (platform : Platform) (s : GameSession) (call : PlayCall) (db : Db) (fin : Finalized)
    {o : Outcome}
    → fin.changed ≡ false
    → fin.work ≡ db
    → (play_finalized platform s call db fin).result ≡ ok o
    → IsReplay s o db (play_finalized platform s call db fin).durable
      ⊎ IsPlay platform s call o db (play_finalized platform s call db fin).durable
unfolding play_finalized
play_finalized-IsAnswered platform s call db fin {o} same kept e =
    elim (Bool-cases (is_active_session s.status)) [
      | inl active ↦
          let step : play_finalized platform s call db fin ≡ play_active platform s call db db =
            rw (same, active, kept, play_finalized) refl in
          inr (rw step (play_active-IsPlay platform s call db {o = o} active (rw step at e)))
      | inr over ↦
          let step : play_finalized platform s call db fin ≡ replayed s call db db =
            rw (same, over, kept, play_finalized) refl in
          inl (rw step (replayed-IsReplay s call db {o = o} (rw step at e)))
    ]

play_finalized-unchanged :
    (platform : Platform) (s : GameSession) (call : PlayCall) (db : Db) (fin : Finalized)
    {o : Outcome}
    → (play_finalized platform s call db fin).result ≡ ok o
    → fin.changed ≡ false
unfolding play_finalized
play_finalized-unchanged platform s call db fin {o} e = elim (Bool-cases fin.changed) [
  | inl changed ↦ absurd (ground arith)
  | inr same ↦ same
]

play_owned-IsAnswered :
    (platform : Platform) (s : GameSession) (call : PlayCall) (db : Db) {o : Outcome}
    → (play_owned platform s call db).result ≡ ok o
    → (is_due s call.now ≡ false)
      × (IsReplay s o db (play_owned platform s call db).durable
          ⊎ IsPlay platform s call o db (play_owned platform s call db).durable)
unfolding play_owned
play_owned-IsAnswered platform s call db {o} e =
    elim (Result-cases (finalize_expired_session platform s call.now db)) [
      | inr (x, failed) ↦ absurd (ground arith)
      | inl (fin, done) ↦
          let answered = rw (done, play_owned) at e in
          let same = play_finalized-unchanged platform s call db fin {o = o} answered in
          let kept =
            finalize_session-unchanged platform (lock_fairness_proof_by_session s.id) s call.now db
              {fin = fin} done same in
          (
            kept.0,
            rw (done, play_owned)
                (play_finalized-IsAnswered platform s call db fin {o = o} same kept.1 answered),
          )
    ]

-- A play that answers found the caller's own session, not due at the time of the play. Either the session
-- is completed, and the answer is its stored outcome while nothing changes; or it is active, the rules of
-- its game evaluate the play, and exactly these rows are written: the outcome, one reward of the value
-- that the rules give it, the session as completed, two audit records and two analytics events.
pub play_session_effect :
    (platform : Platform) (call : PlayCall) (db : Db) {o : Outcome}
    → (play_session platform call db).result ≡ ok o
    → IsAnswered platform call o db (play_session platform call db).durable
unfolding play_session
play_session_effect platform call db {o} e =
    elim (Result-cases (owned_session call.session_id call.owner_id db)) [
      | inr (x, failed) ↦ absurd (ground arith)
      | inl (s, found) ↦
          let (early, done) =
            play_owned-IsAnswered platform s call db {o = o} (rw (found, play_session) at e) in
          (s, found, early, rw (found, play_session) done)
    ]
