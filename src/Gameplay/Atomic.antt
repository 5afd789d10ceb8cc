-- ===== src/Gameplay/Atomic.antt =====
-- What a failed play of app/services/gameplay.py leaves in the database.
use python_rng_game_platform.Base.{◌≡◌, ◌≢◌, refl, inl, inr, Bool-cases, err, Result-cases, arith}
use python_rng_game_platform.Models.Errors.{Error, session_expired}
use python_rng_game_platform.Models.Rows.{GameSession, Outcome, is_active_session}
use python_rng_game_platform.Store.{Db, Reply}
use python_rng_game_platform.Platform.{Platform}
use python_rng_game_platform.Sessions.{finalize_expired_session, Finalized, owned_session}
use python_rng_game_platform.Gameplay.{
  PlayCall, evaluate_play, record_play, play_active, replay, replayed, play_finalized, play_owned,
  play_session,
}

-- A reply that, if it is an error other than an expiry, keeps the tables of `db`.
abbrev Keeps : Db → Reply Outcome → Type 0
Keeps db r = (e : Error) → r.result ≡ err e → e ≢ session_expired → r.durable ≡ db

module _ (platform : Platform) (call : PlayCall) (db : Db) where
  play_active-Keeps : (s : GameSession) (work : Db) → Keeps db (play_active platform s call db work)
  unfolding play_active
  play_active-Keeps s work e raised other =
      elim (Result-cases (evaluate_play platform s call work)) [
        | inr (x, failed) ↦ rw (failed, play_active) refl
        | inl (play, evaluated) ↦ elim (Result-cases (record_play s call play work)) [
          | inr (x, failed) ↦ rw (evaluated, failed, play_active) refl
          | inl (after, recorded) ↦ absurd (ground arith)
        ]
      ]

  replayed-Keeps : (s : GameSession) (work : Db) → Keeps db (replayed s call db work)
  unfolding replayed
  replayed-Keeps s work e raised other = elim (Result-cases (replay s call.intent work)) [
    | inr (x, failed) ↦ rw (failed, replayed) refl
    | inl (outcome, found) ↦ absurd (ground arith)
  ]

  play_finalized-Keeps :
      (s : GameSession) (fin : Finalized) → Keeps db (play_finalized platform s call db fin)
  unfolding play_finalized
  play_finalized-Keeps s fin e raised other = elim (Bool-cases fin.changed) [
    | inl changed ↦ absurd (ground arith)
    | inr same ↦ elim (Bool-cases (is_active_session s.status)) [
      | inl active ↦
          rw (same, active, play_finalized)
            (play_active-Keeps s fin.work e (rw (same, active, play_finalized) at raised) other)
      | inr over ↦
          rw (same, over, play_finalized)
            (replayed-Keeps s fin.work e (rw (same, over, play_finalized) at raised) other)
    ]
  ]

  play_owned-Keeps : (s : GameSession) → Keeps db (play_owned platform s call db)
  unfolding play_owned
  play_owned-Keeps s e raised other =
      elim (Result-cases (finalize_expired_session platform s call.now db)) [
        | inr (x, failed) ↦ rw (failed, play_owned) refl
        | inl (fin, done) ↦
            rw (done, play_owned)
              (play_finalized-Keeps s fin e (rw (done, play_owned) at raised) other)
      ]

-- A play that raises any error but an expiry changes nothing: the tables that are durable after it are
-- those before it.
pub play_session_atomic :
    (platform : Platform) (call : PlayCall) (db : Db) {e : Error}
    → (play_session platform call db).result ≡ err e
    → e ≢ session_expired
    → (play_session platform call db).durable ≡ db
unfolding play_session
play_session_atomic platform call db {e} raised other =
    elim (Result-cases (owned_session call.session_id call.owner_id db)) [
      | inr (x, failed) ↦ rw (failed, play_session) refl
      | inl (s, found) ↦
          rw (found, play_session)
            (play_owned-Keeps platform call db s e (rw (found, play_session) at raised) other)
    ]
