-- ===== src/Sessions/Create/Effect.antt =====
-- What `create_session` of app/services/sessions.py refuses, and what it checks before it opens a
-- session.
use python_rng_game_platform.Base.{
  ℕ, ◌+◌, ◌≤◌, ◌≡◌, ◌⊎◌, refl, ap, sym, ◌∙◌, inl, inr, true, false, Bool, Bool-cases, [], ◌∷◌, ◌++◌,
  Option, none, some, Option-cases, ◌==◌, ◌==ˢ◌, any, Text, Result, ok, err, Result-cases,
  >>=-eq-ok, ok_inj, ok-err, arith, raise_if, ltb, ◌>>=◌,
}
use python_rng_game_platform.Models.Errors.{
  Error, active_session_exists, cooldown_active, not_found,
}
use python_rng_game_platform.Models.Schemas.{GameConfigPayload, validate_payload, cooldown_of}
use python_rng_game_platform.Models.Rows.{GameSession, GameConfigVersion, Player, is_active_session}
use python_rng_game_platform.GameRules.{or_raise}
use python_rng_game_platform.Store.{
  Db, Reply, committed, get_player, get_session_by_request, get_config_by_id, latest_session,
  session_clashes, add_session, lock_expired_active_sessions,
}
use python_rng_game_platform.Store.Evidence.{add_session_audit, add_session_started_event}
use python_rng_game_platform.Sessions.Create.Once.{add_session-inv, started-inv}
use python_rng_game_platform.Platform.{Platform}
use python_rng_game_platform.Sessions.Create.{
  CreateCall, create_fingerprint, finalize_all, seconds, check_latest, Offer, check_offer,
  check_free, expire_elapsed, Opening, check_opening, new_session, record_session, open_session,
  serve, create_session,
}

raise_if-ok : (test : Bool) (e : Error) {u : Unit {0}} → raise_if test e ≡ ok u → test ≡ false
raise_if-ok false e h = refl
raise_if-ok true e h = cc

or_raise-ok :
    {A : Type 0} (found : Option A) (e : Error) {a : A} → or_raise found e ≡ ok a → found ≡ some a
or_raise-ok none e h = cc
or_raise-ok (some a) e h = ap some (ok_inj h)

open_session-refused :
    (platform : Platform) (call : CreateCall) (player : Player) (db : Db) {e : Error}
    → (open_session platform call player db).result ≡ err e
    → (open_session platform call player db).durable ≡ db
unfolding open_session
open_session-refused platform call player db {e} raised =
    elim (Result-cases (check_opening platform call player db)) [
      | inr (x, failed) ↦ rw (failed, open_session) refl
      | inl (o, opened) ↦
          elim (Result-cases
            (record_session (new_session platform call player o) o.game.key o.work)) [
              | inr (x, failed) ↦ rw (opened, failed, open_session) refl
              | inl (work, recorded) ↦
                  let step : open_session platform call player db
                      ≡ committed (new_session platform call player o) work =
                    rw (opened, recorded, open_session) refl in
                  absurd (ok-err (rw step at raised))
            ]
    ]

serve-refused :
    (platform : Platform) (call : CreateCall) (player : Player) (served : Option GameSession)
    (db : Db) {e : Error}
    → (serve platform call player served db).result ≡ err e
    → (serve platform call player served db).durable ≡ db
unfolding serve
serve-refused platform call player none db {e} raised =
    open_session-refused platform call player db {e = e} raised
serve-refused platform call player (some existing) db {e} raised =
    elim (Bool-cases (existing.request_fingerprint ==ˢ create_fingerprint platform call)) [
      | inl agrees ↦ rw (agrees, serve) refl
      | inr differs ↦ rw (differs, serve) refl
    ]

-- A creation that raises changes nothing: not even the expiry of elapsed sessions stays.
pub create_session_refused :
    (platform : Platform) (call : CreateCall) (db : Db) {e : Error}
    → (create_session platform call db).result ≡ err e
    → (create_session platform call db).durable ≡ db
unfolding create_session
create_session_refused platform call db {e} raised =
    elim (Bool-cases (call.player_id == call.owner_id)) [
      | inr other ↦ rw (other, create_session) refl
      | inl own ↦ elim (Option-cases (get_player call.player_id db)) [
        | inl missing ↦ rw (own, missing, create_session) refl
        | inr (player, found) ↦
            let served = get_session_by_request call.request_id db in
            let step : create_session platform call db ≡ serve platform call player served db =
              rw (own, found, create_session) refl in
            rw step (serve-refused platform call player served db {e = e} (rw step at raised))
      ]
    ]

-- The latest session of a player and a game is over, and its cooldown has passed.
abbrev pub IsCooled : GameSession → ℕ → Db → Type 0
IsCooled latest now db =
    (is_active_session latest.status ≡ false)
    × (config : GameConfigVersion) × (payload : GameConfigPayload) × (get_config_by_id
          latest.config_version_id db
        ≡ some config)
    × (validate_payload config.payload ≡ ok payload)
    × (latest.created_at + seconds (cooldown_of payload) ≤ now)

check_latest-IsCooled :
    (latest : GameSession) (now : ℕ) (db : Db)
    → check_latest (some latest) now db ≡ ok tt
    → IsCooled latest now db
unfolding check_latest
check_latest-IsCooled latest now db e =
    let passed : GameConfigPayload → Result Error (Unit {0}) = λ payload.
      raise_if (ltb now (latest.created_at + seconds (cooldown_of payload))) cooldown_active in
    let valid : GameConfigVersion → Result Error (Unit {0}) =
      λ config. validate_payload config.payload >>= passed in
    let over =
      >>=-eq-ok (raise_if (is_active_session latest.status) active_session_exists)
        (λ done. or_raise (get_config_by_id latest.config_version_id db) not_found >>= valid) e in
    let bound =
      >>=-eq-ok (or_raise (get_config_by_id latest.config_version_id db) not_found) valid over.2 in
    let read = >>=-eq-ok (validate_payload bound.0.payload) passed bound.2 in
    let late =
      raise_if-ok (ltb now (latest.created_at + seconds (cooldown_of read.0))) cooldown_active
        read.2 in
    (
      raise_if-ok (is_active_session latest.status) active_session_exists over.1,
      bound.0,
      read.0,
      or_raise-ok (get_config_by_id latest.config_version_id db) not_found bound.1,
      read.1,
      ground arith,
    )

-- What allows a new session: there is no earlier one, or the latest is over and cooled down.
abbrev pub IsFree : Option GameSession → ℕ → Db → Type 0
IsFree latest now db = (latest ≡ none) ⊎ ((s : GameSession) × (latest ≡ some s) × IsCooled s now db)

check_latest-IsFree :
    (latest : Option GameSession) (now : ℕ) (db : Db) {u : Unit {0}}
    → check_latest latest now db ≡ ok u
    → IsFree latest now db
unfolding check_latest
check_latest-IsFree none now db e = inl refl
check_latest-IsFree (some s) now db e = inr (s, refl, check_latest-IsCooled s now db e)

check_free-IsFree :
    (call : CreateCall) (player : Player) (offer : Offer) (work : Db) {o : Opening}
    → check_free call player offer work ≡ ok o
    → IsFree (latest_session player.id offer.game.id work) call.now work
      × (o.work ≡ work)
      × (o.game ≡ offer.game)
unfolding check_free
check_free-IsFree call player offer work {o} e = (
  check_latest-IsFree (latest_session player.id offer.game.id work) call.now work {u = tt}
      (ground arith),
  ground arith,
  ground arith,
)

check_opening-IsFree :
    (platform : Platform) (call : CreateCall) (player : Player) (db : Db) {o : Opening}
    → check_opening platform call player db ≡ ok o
    → IsFree (latest_session player.id o.game.id o.work) call.now o.work
unfolding check_opening expire_elapsed
check_opening-IsFree platform call player db {o} e =
    let offered =
      >>=-eq-ok (check_offer call player db) (λ offer. expire_elapsed platform call player offer db)
        e in
    let ran =
      >>=-eq-ok
        (finalize_all platform
          (lock_expired_active_sessions player.id offered.0.game.id call.now db) call.now db)
        (check_free call player offered.0) offered.2 in
    let (free, work, game) = check_free-IsFree call player offered.0 ran.0 {o = o} ran.2 in
    rw (work, game) free

record_session-fresh :
    (s : GameSession) (game_key : Text) (db : Db) {work : Db}
    → record_session s game_key db ≡ ok work
    → (any (session_clashes s) db.sessions ≡ false) × (work.sessions ≡ db.sessions ++ s ∷ [])
unfolding record_session
record_session-fresh s game_key db {work} e =
    let added =
      >>=-eq-ok (add_session s db)
        (λ added. add_session_started_event s game_key (add_session_audit s added)) e in
    let (fresh, rows) = add_session-inv s db {work = added.0} added.1 in
    (
      fresh,
      (started-inv s game_key added.0 {work = work} added.2).0 ∙ ap (λ (x : Db). x.sessions) rows,
    )

-- A session that is opened: the checks passed on the tables `o.work` in which the elapsed sessions are
-- finalized, and it is added to them, clashing with none.
abbrev pub IsOpened : Platform → CreateCall → Player → GameSession → Db → Db → Type 0
IsOpened platform call player s db durable =
    (o : Opening) × (check_opening platform call player db ≡ ok o)
    × IsFree (latest_session player.id o.game.id o.work) call.now o.work
    × (s ≡ new_session platform call player o)
    × (any (session_clashes s) o.work.sessions ≡ false)
    × (durable.sessions ≡ o.work.sessions ++ s ∷ [])

open_session-IsOpened :
    (platform : Platform) (call : CreateCall) (player : Player) (db : Db) {s : GameSession}
    → (open_session platform call player db).result ≡ ok s
    → IsOpened platform call player s db (open_session platform call player db).durable
unfolding open_session
open_session-IsOpened platform call player db {s} e =
    elim (Result-cases (check_opening platform call player db)) [
      | inr (x, failed) ↦ absurd (ground arith)
      | inl (o, opened) ↦
          elim (Result-cases
            (record_session (new_session platform call player o) o.game.key o.work)) [
              | inr (x, failed) ↦ absurd (ground arith)
              | inl (work, recorded) ↦
                  let new = new_session platform call player o in
                  let step : open_session platform call player db ≡ committed new work =
                    rw (opened, recorded, open_session) refl in
                  let same : s ≡ new = sym (ok_inj (rw step at e)) in
                  let (fresh, rows) =
                    record_session-fresh new o.game.key o.work {work = work} recorded in
                  (
                    o,
                    opened,
                    check_opening-IsFree platform call player db {o = o} opened,
                    same,
                    ap (λ x. any (session_clashes x) o.work.sessions) same ∙ fresh,
                    ap (λ (r : Reply GameSession). r.durable.sessions) step
                        ∙ rows
                        ∙ ap (λ x. o.work.sessions ++ x ∷ []) (sym same),
                  )
            ]
    ]

-- A first request that is answered opens a session: with the elapsed sessions of the player and game
-- finalized, the latest of theirs is over and its cooldown has passed, or there is none; the new session
-- has the shape of the request, clashes with no other in its key, its request or as a second active
-- session of the player and game, and is the last of the durable sessions.
pub create_session_opens :
    (platform : Platform) (call : CreateCall) (db : Db) {s : GameSession}
    → get_session_by_request call.request_id db ≡ none
    → (create_session platform call db).result ≡ ok s
    → (player : Player) × (get_player call.player_id db ≡ some player)
      × IsOpened platform call player s db (create_session platform call db).durable
unfolding create_session
create_session_opens platform call db {s} first e =
    elim (Bool-cases (call.player_id == call.owner_id)) [
      | inr other ↦ absurd (ground arith)
      | inl own ↦ elim (Option-cases (get_player call.player_id db)) [
        | inl missing ↦ absurd (ground arith)
        | inr (player, found) ↦
            let step : create_session platform call db ≡ open_session platform call player db =
              rw (own, found, first, create_session, serve) refl in
            (
              player,
              found,
              rw step (open_session-IsOpened platform call player db {s = s} (rw step at e)),
            )
      ]
    ]
