-- ===== src/Gameplay/Once.antt =====
-- A session of app/services/gameplay.py is played once.
use python_rng_game_platform.Base.{
  ℕ, ◌≡◌, refl, ap, sym, ◌∙◌, inl, inr, true, false, Bool-cases, some, Option-cases, ◌==◌, ok,
  Result-cases, ok_inj, some_inj, arith,
}
use python_rng_game_platform.Models.Rows.{GameSession, SessionStatus, Outcome, is_active_session}
use python_rng_game_platform.Store.{Db, lock_session}
use python_rng_game_platform.Store.Lookups.{lock_session-replace}
use python_rng_game_platform.Platform.{Platform}
use python_rng_game_platform.Sessions.{
  ended, is_due, finalized, finalize_expired_session, owned_session, finalize_session,
}
use python_rng_game_platform.Gameplay.{
  PlayCall, Evaluated, replay, replayed, play_finalized, play_owned, play_session,
}
use python_rng_game_platform.Gameplay.Rows.{played_db}
use python_rng_game_platform.Gameplay.Effect.{play_session_effect}

pub owned_session-inv :
    (id owner_id : ℕ) (db : Db) {s : GameSession}
    → owned_session id owner_id db ≡ ok s
    → (lock_session id db ≡ some s) × ((s.player_id == owner_id) ≡ true)
unfolding owned_session
owned_session-inv id owner_id db {s} e = elim (Option-cases (lock_session id db)) [
  | inl missing ↦ absurd (ground arith)
  | inr (found, locked) ↦ elim (Bool-cases (found.player_id == owner_id)) [
    | inr other ↦ absurd (ground arith)
    | inl own ↦
        let same : found ≡ s = ok_inj (rw (locked, own, owned_session) at e) in
        (locked ∙ ap some same, ap (λ (x : GameSession). x.player_id == owner_id) (sym same) ∙ own)
  ]
]

-- A completed session has nothing to finalize.
completed-settled :
    (platform : Platform) (s : GameSession) (now : ℕ) (db : Db)
    → s.status ≡ SessionStatus.completed
    → finalize_expired_session platform s now db ≡ ok (finalized false db)
unfolding finalize_session is_due
completed-settled platform s now db h = ground arith

replayed-kept : (s : GameSession) (call : PlayCall) (db : Db) → (replayed s call db db).durable ≡ db
unfolding replayed
replayed-kept s call db = elim (Result-cases (replay s call.intent db)) [
  | inl (o, found) ↦ rw (found, replayed) refl
  | inr (x, failed) ↦ rw (failed, replayed) refl
]

status-over :
    (s : GameSession) → s.status ≡ SessionStatus.completed → is_active_session s.status ≡ false
status-over s h = ap is_active_session h

completed-kept :
    (platform : Platform) (s : GameSession) (call : PlayCall) (db : Db)
    → s.status ≡ SessionStatus.completed
    → (play_owned platform s call db).durable ≡ db
unfolding play_owned play_finalized
completed-kept platform s call db h =
    let step : play_finalized platform s call db (finalized false db) ≡ replayed s call db db =
      rw (status-over s h, play_finalized) refl in
    rw (completed-settled platform s call.now db h, play_owned) (rw step (replayed-kept s call db))

-- No play, by anyone, changes the tables while its session is completed.
completed_session-kept :
    (platform : Platform) (call : PlayCall) (db : Db) {s : GameSession}
    → lock_session call.session_id db ≡ some s
    → s.status ≡ SessionStatus.completed
    → (play_session platform call db).durable ≡ db
unfolding play_session
completed_session-kept platform call db {s} locked h =
    elim (Result-cases (owned_session call.session_id call.owner_id db)) [
      | inr (x, failed) ↦ rw (failed, play_session) refl
      | inl (found, own) ↦
          let same : found ≡ s =
            some_inj (
              sym (owned_session-inv call.session_id call.owner_id db {s = found} own).0
              ∙ locked) in
          rw (own, play_session)
            (completed-kept platform found call db (ap (λ (x : GameSession). x.status) same ∙ h))
    ]

played_db-completed :
    (s : GameSession) (call : PlayCall) (play : Evaluated) (value : ℕ) (db : Db)
    → lock_session call.session_id db ≡ some s
    → lock_session call.session_id (played_db s call play value db)
      ≡ some (ended SessionStatus.completed call.now s)
unfolding lock_session
played_db-completed s call play value db locked =
    lock_session-replace call.session_id (ended SessionStatus.completed call.now s) s db.sessions
      locked refl

-- A session is played once: after a play that answered, no play on the same session, by whomever, at any
-- time and with any input, changes the tables.
pub play_session_once :
    (platform : Platform) (call later : PlayCall) (db : Db) {o : Outcome}
    → later.session_id ≡ call.session_id
    → (play_session platform call db).result ≡ ok o
    → (play_session platform later (play_session platform call db).durable).durable
      ≡ (play_session platform call db).durable
play_session_once platform call later db {o} same e =
    let (s, owned, early, done) = play_session_effect platform call db {o = o} e in
    let locked = (owned_session-inv call.session_id call.owner_id db {s = s} owned).0 in
    elim done [
      | inl (completed, stored, kept) ↦ rw kept (
          completed_session-kept platform later db {s = s}
            (ap (λ id. lock_session id db) same ∙ locked) completed)
      | inr (active, play, value, evaluated, worth, answer, changed) ↦ rw changed (
          completed_session-kept platform later (played_db s call play value db)
            {s = ended SessionStatus.completed call.now s}
            (ap (λ id. lock_session id (played_db s call play value db)) same
              ∙ played_db-completed s call play value db locked)
            refl)
    ]
