-- ===== src/Sessions/Create/Once.antt =====
-- A repeated request of `create_session` in app/services/sessions.py.
use python_rng_game_platform.Base.{
  ℕ, ◌≡◌, refl, ap, sym, ◌∙◌, inl, inr, true, false, Bool-cases, List, [], ◌∷◌, ◌++◌, Option, none,
  some, Option-cases, Text, ◌==◌, ==_refl, ◌==ˢ◌, ==ˢ_refl, ==ˢ-sound, find?, any, ok, Result-cases,
  >>=-eq-ok, ok_inj, arith,
}
use python_rng_game_platform.Models.Rows.{GameSession, Player}
use python_rng_game_platform.Store.{
  Db, committed, get_session_by_request, get_player, add_session, session_clashes,
  lock_expired_active_sessions,
}
use python_rng_game_platform.Store.Evidence.{
  add_session_audit, add_session_started_event, add_audit, add_event,
}
use python_rng_game_platform.Platform.{Platform}
use python_rng_game_platform.Sessions.{finalize_expired_session, lock_fairness_proof_by_session}
use python_rng_game_platform.Sessions.Endings.{finalize_session-players}
use python_rng_game_platform.Sessions.Create.{
  CreateCall, create_fingerprint, finalize_all, Offer, check_offer, check_free, expire_elapsed,
  Opening, check_opening, new_session, record_session, open_session, serve, create_session,
}

-- A row behind rows that all clash with none of its request is found by its request.
request-last :
    (new : GameSession) (sessions : List GameSession)
    → any (session_clashes new) sessions ≡ false
    → find? (λ s. s.request_id == new.request_id) (sessions ++ new ∷ []) ≡ some new
request-last new [] h = rw (==_refl new.request_id) refl
request-last new (s ∷ sessions) h = elim (Bool-cases (s.request_id == new.request_id)) [
  | inl same ↦ absurd (ground arith)
  | inr other ↦ rw other (request-last new sessions (ground arith))
]

pub add_session-inv :
    (new : GameSession) (db : Db) {work : Db}
    → add_session new db ≡ ok work
    → (any (session_clashes new) db.sessions ≡ false)
      × (work ≡ record db { sessions = db.sessions ++ new ∷ [] })
unfolding add_session
add_session-inv new db {work} e = elim (Bool-cases (any (session_clashes new) db.sessions)) [
  | inl clash ↦ absurd (ground arith)
  | inr fresh ↦ (fresh, ground arith)
]

pub started-inv :
    (s : GameSession) (game_key : Text) (db : Db) {work : Db}
    → add_session_started_event s game_key (add_session_audit s db) ≡ ok work
    → (work.sessions ≡ db.sessions) × (work.players ≡ db.players)
unfolding add_session_started_event add_session_audit add_audit add_event
started-inv s game_key db {work} e = (ground arith, ground arith)

-- A recorded session is found by its request, and the players are those before.
record_session-inv :
    (s : GameSession) (game_key : Text) (db : Db) {work : Db}
    → record_session s game_key db ≡ ok work
    → (get_session_by_request s.request_id work ≡ some s) × (work.players ≡ db.players)
unfolding record_session get_session_by_request
record_session-inv s game_key db {work} e =
    let added =
      >>=-eq-ok (add_session s db)
        (λ added. add_session_started_event s game_key (add_session_audit s added)) e in
    let (fresh, rows) = add_session-inv s db {work = added.0} added.1 in
    let (sessions, players) = started-inv s game_key added.0 {work = work} added.2 in
    (
      ap (find? (λ r. r.request_id == s.request_id)) (sessions ∙ ap (λ (x : Db). x.sessions) rows)
          ∙ request-last s db.sessions fresh,
      players ∙ ap (λ (x : Db). x.players) rows,
    )

finalize_all-players :
    (platform : Platform) (sessions : List GameSession) (now : ℕ) (db : Db) {work : Db}
    → finalize_all platform sessions now db ≡ ok work
    → work.players ≡ db.players
unfolding finalize_all
finalize_all-players platform [] now db e = ap (λ (x : Db). x.players) (sym (ok_inj e))
finalize_all-players platform (s ∷ sessions) now db {work} e =
    let ran =
      >>=-eq-ok (finalize_expired_session platform s now db)
        (λ done. finalize_all platform sessions now done.work) e in
    finalize_all-players platform sessions now ran.0.work {work = work} ran.2
    ∙ finalize_session-players platform (lock_fairness_proof_by_session s.id) s now db {fin = ran.0}
        ran.1

check_free-work :
    (call : CreateCall) (player : Player) (offer : Offer) (work : Db) {o : Opening}
    → check_free call player offer work ≡ ok o
    → o.work ≡ work
unfolding check_free
check_free-work call player offer work {o} e = ground arith

check_opening-players :
    (platform : Platform) (call : CreateCall) (player : Player) (db : Db) {o : Opening}
    → check_opening platform call player db ≡ ok o
    → o.work.players ≡ db.players
unfolding check_opening expire_elapsed
check_opening-players platform call player db {o} e =
    let offered =
      >>=-eq-ok (check_offer call player db) (λ offer. expire_elapsed platform call player offer db)
        e in
    let elapsed = lock_expired_active_sessions player.id offered.0.game.id call.now db in
    let ran =
      >>=-eq-ok (finalize_all platform elapsed call.now db) (check_free call player offered.0)
        offered.2 in
    ap (λ (x : Db). x.players) (check_free-work call player offered.0 ran.0 {o = o} ran.2)
    ∙ finalize_all-players platform elapsed call.now db {work = ran.0} ran.1

-- What every answer of `create_session` leaves: the session under its request, with the fingerprint of
-- the request, and the players as they were.
abbrev IsServed : Platform → CreateCall → GameSession → Db → Db → Type 0
IsServed platform call s db durable =
    (s.request_fingerprint ≡ create_fingerprint platform call)
    × (get_session_by_request call.request_id durable ≡ some s)
    × (durable.players ≡ db.players)

open_session-IsServed :
    (platform : Platform) (call : CreateCall) (player : Player) (db : Db) {s : GameSession}
    → (open_session platform call player db).result ≡ ok s
    → IsServed platform call s db (open_session platform call player db).durable
unfolding open_session
open_session-IsServed platform call player db {s} e =
    elim (Result-cases (check_opening platform call player db)) [
      | inr (x, failed) ↦ absurd (ground arith)
      | inl (o, opened) ↦
          elim (Result-cases
            (record_session (new_session platform call player o) o.game.key o.work)) [
              | inr (x, failed) ↦ absurd (ground arith)
              | inl (work, recorded) ↦
                  let new = new_session platform call player o in
                  let step : open_session platform call player db ≡ committed new work =
                    rw (opened, recorded, open_session) refl in
                  let same : new ≡ s = ok_inj (rw step at e) in
                  let (found, players) =
                    record_session-inv new o.game.key o.work {work = work} recorded in
                  (
                    ap (λ (x : GameSession). x.request_fingerprint) (sym same),
                    rw step (found ∙ ap some same),
                    rw step
                        (players ∙ check_opening-players platform call player db {o = o} opened),
                  )
            ]
    ]

serve-IsServed :
    (platform : Platform) (call : CreateCall) (player : Player) (served : Option GameSession)
    (db : Db) {s : GameSession}
    → get_session_by_request call.request_id db ≡ served
    → (serve platform call player served db).result ≡ ok s
    → IsServed platform call s db (serve platform call player served db).durable
unfolding serve
serve-IsServed platform call player none db {s} found e =
    open_session-IsServed platform call player db {s = s} e
serve-IsServed platform call player (some existing) db {s} found e =
    elim (Bool-cases (existing.request_fingerprint ==ˢ create_fingerprint platform call)) [
      | inr differs ↦ absurd (ground arith)
      | inl agrees ↦
          let step : serve platform call player (some existing) db ≡ committed existing db =
            rw (agrees, serve) refl in
          let same : existing ≡ s = ok_inj (rw step at e) in
          (
            ap (λ (x : GameSession). x.request_fingerprint) (sym same)
                ∙ ==ˢ-sound existing.request_fingerprint (create_fingerprint platform call) agrees,
            rw step (found ∙ ap some same),
            rw step refl,
          )
    ]

create_session-IsServed :
    (platform : Platform) (call : CreateCall) (db : Db) {s : GameSession}
    → (create_session platform call db).result ≡ ok s
    → ((call.player_id == call.owner_id) ≡ true)
      × ((player : Player) × (get_player call.player_id db ≡ some player))
      × IsServed platform call s db (create_session platform call db).durable
unfolding create_session
create_session-IsServed platform call db {s} e =
    elim (Bool-cases (call.player_id == call.owner_id)) [
      | inr other ↦ absurd (ground arith)
      | inl own ↦ elim (Option-cases (get_player call.player_id db)) [
        | inl missing ↦ absurd (ground arith)
        | inr (player, found) ↦
            let served = get_session_by_request call.request_id db in
            let step : create_session platform call db ≡ serve platform call player served db =
              rw (own, found, create_session) refl in
            (
              own,
              (player, found),
              rw step (serve-IsServed platform call player served db {s = s} refl (rw step at e)),
            )
      ]
    ]

-- Two requests for the same: their key, player, owner and game agree.
pub record IsRepeated (call later : CreateCall) : Type 0 where
  pub request : later.request_id ≡ call.request_id
  pub player : later.player_id ≡ call.player_id
  pub owner : later.owner_id ≡ call.owner_id
  pub game : later.game_key ≡ call.game_key

create_fingerprint-repeated :
    (platform : Platform) (call later : CreateCall)
    → IsRepeated call later
    → create_fingerprint platform later ≡ create_fingerprint platform call
unfolding create_fingerprint
create_fingerprint-repeated platform call later same = rw (same.player, same.game) refl

served_again :
    (platform : Platform) (call : CreateCall) (db : Db) (player : Player) (s : GameSession)
    → (call.player_id == call.owner_id) ≡ true
    → get_player call.player_id db ≡ some player
    → get_session_by_request call.request_id db ≡ some s
    → s.request_fingerprint ≡ create_fingerprint platform call
    → create_session platform call db ≡ committed s db
unfolding create_session serve
served_again platform call db player s own found stored print =
    let agrees : (s.request_fingerprint ==ˢ create_fingerprint platform call) ≡ true =
      ap (λ t. t ==ˢ create_fingerprint platform call) print
      ∙ ==ˢ_refl (create_fingerprint platform call) in
    rw (own, found, stored, create_session, agrees, serve) refl

get_player-players :
    (id : ℕ) (db durable : Db)
    → durable.players ≡ db.players
    → get_player id durable ≡ get_player id db
unfolding get_player
get_player-players id db durable same = ap (find? (λ p. p.id == id)) same

-- A creation is idempotent: once a request was answered, every repetition of it, with the same key,
-- player, owner and game, at any time, gives the same session and changes nothing.
pub create_session_once :
    (platform : Platform) (call later : CreateCall) (db : Db) {s : GameSession}
    → (create_session platform call db).result ≡ ok s
    → IsRepeated call later
    → create_session platform later (create_session platform call db).durable
      ≡ committed s (create_session platform call db).durable
create_session_once platform call later db {s} e same =
    let (own, (player, found), (print, stored, players)) =
      create_session-IsServed platform call db {s = s} e in
    let durable = (create_session platform call db).durable in
    served_again platform later durable player s
      (ap (λ id. id == later.owner_id) same.player
        ∙ ap (λ id. call.player_id == id) same.owner
        ∙ own)
      (get_player-players later.player_id db durable players
        ∙ ap (λ id. get_player id db) same.player
        ∙ found)
      (ap (λ id. get_session_by_request id durable) same.request ∙ stored)
      (print ∙ sym (create_fingerprint-repeated platform call later same))
