-- ===== src/Leaderboards/Derived.antt =====
-- What `submit_final_score` of app/services/leaderboards.py derives a score from.
use python_rng_game_platform.Fairness.Evaluate.{require-inv}
use mathlib.Core.Path.{subst}
use python_rng_game_platform.GameRules.Registry.{
  leaderboard_score, RegisteredGame, leaderboard_rules_for,
}
use python_rng_game_platform.Models.Errors.{Error, invalid_rules_input, invalid_transition}
use python_rng_game_platform.Base.{
  ◌≡◌, refl, sym, ap, ◌∙◌, inl, inr, true, Option-cases, none, some, ok, Result-cases, arith, [],
  ◌∷◌, ◌==◌, ==_refl, Option, ℕ, Text, List, ok_inj, find?, ◌&&◌, suc, Result, err, Bool-cases, ◌<◌,
  leb,
}
use python_rng_game_platform.Models.Rows.{
  Game, GameSession, FinalScore, LeaderboardProjectionRevision, PlayerStatus,
}
use python_rng_game_platform.Store.{Db, get_game_by_id}
use python_rng_game_platform.Store.Leaderboards.{advance_revision, revision_of}
use python_rng_game_platform.Leaderboards.{
  SubmitCall, Scored, derive_score, Player, Error, get_player, SessionStatus, Outcome,
  as_ineligible, get_outcome_by_session, active_player, completed_at, accepted_outcome,
  as_invalid_play, OutcomeStatus, GameConfigVersion, get_config_by_id, RegisteredGame,
  leaderboard_rules_for, is_accepted, is_active_player, is_completed_session, leaderboard_period,
  final_score_of,
}

-- The next revision of a game's period.
pub advance_revision-next :
    (game_id period_start : ℕ) (rs : List LeaderboardProjectionRevision)
    → revision_of (
        find?
          (λ r. r.game_id == game_id && r.period_start == period_start)
          (advance_revision game_id period_start rs))
      ≡ suc (revision_of (find? (λ r. r.game_id == game_id && r.period_start == period_start) rs))
unfolding advance_revision
advance_revision-next game_id period_start [] = rw (==_refl game_id, ==_refl period_start) refl
advance_revision-next game_id period_start (r ∷ rs) =
    elim (Bool-cases (r.game_id == game_id && r.period_start == period_start)) [
      | inl same ↦ rw (same, same) (omega arith)
      | inr other ↦ rw (other, other) (advance_revision-next game_id period_start rs)
    ]

-- What a new score is derived from: the active player, the game, the completed session with its end, its
-- accepted outcome and its configuration, in a period that is not over.
abbrev pub IsDerived : SubmitCall → GameSession → FinalScore → Text → Db → Type 0
IsDerived call s score game_key db =
    ((player : Player) × (get_player call.owner_id db ≡ some player)
      × (player.status ≡ PlayerStatus.active))
    × (game : Game) × (get_game_by_id s.game_id db ≡ some game)
    × (game.key ≡ game_key)
    × (s.status ≡ SessionStatus.completed)
    × (ended : ℕ) × (s.ended_at ≡ some ended)
    × (outcome : Outcome) × (get_outcome_by_session s.id db ≡ some outcome)
    × (outcome.status ≡ OutcomeStatus.accepted)
    × (config : GameConfigVersion) × (get_config_by_id s.config_version_id db ≡ some config)
    × (rules : RegisteredGame) × (leaderboard_rules_for game.key ≡ ok rules)
    × (leaderboard_score rules.key config outcome ≡ ok score.final_score)
    × (call.now < (leaderboard_period ended).end)
    × (score ≡ record {
      id = call.score_id;
      player_id = call.owner_id;
      game_id = game.id;
      session_id = s.id;
      outcome_id = outcome.id;
      config_version_id = config.id;
      period_start = (leaderboard_period ended).start;
      completed_at = ended;
      final_score = score.final_score;
    })

pub as_ineligible-inv :
    {A : Type 0} (m : Result Error A) {a : A} → as_ineligible m ≡ ok a → m ≡ ok a
as_ineligible-inv (ok a) e = e
as_ineligible-inv (err invalid_rules_input) e = cc
as_ineligible-inv (err x) e = e

as_invalid_play-inv :
    {A : Type 0} (m : Result Error A) {a : A} → as_invalid_play m ≡ ok a → m ≡ ok a
as_invalid_play-inv (ok a) e = e
as_invalid_play-inv (err invalid_rules_input) e = cc
as_invalid_play-inv (err x) e = e

is_active_player-inv : (x : PlayerStatus) → is_active_player x ≡ true → x ≡ PlayerStatus.active
is_active_player-inv PlayerStatus.active e = refl
is_active_player-inv PlayerStatus.inactive e = cc

is_completed_session-inv :
    (x : SessionStatus) → is_completed_session x ≡ true → x ≡ SessionStatus.completed
is_completed_session-inv SessionStatus.completed e = refl
is_completed_session-inv _ e = cc

is_accepted-inv : (x : OutcomeStatus) → is_accepted x ≡ true → x ≡ OutcomeStatus.accepted
is_accepted-inv OutcomeStatus.accepted e = refl
is_accepted-inv OutcomeStatus.rejected e = cc

active_player-inv :
    (player_id : ℕ) (db : Db) {player : Player}
    → active_player player_id db ≡ ok player
    → (get_player player_id db ≡ some player) × (player.status ≡ PlayerStatus.active)
unfolding active_player
active_player-inv player_id db {player} e =
    (ground arith, is_active_player-inv player.status (ground arith))

completed_at-inv :
    (s : GameSession) {ended : ℕ}
    → completed_at s ≡ ok ended
    → (s.status ≡ SessionStatus.completed) × (s.ended_at ≡ some ended)
completed_at-inv s {ended} e = elim (Bool-cases (is_completed_session s.status)) [
  | inr other ↦ absurd (ground arith)
  | inl over ↦ (
    is_completed_session-inv s.status over,
    require-inv s.ended_at invalid_transition (rw over at e),
  )
]

accepted_outcome-inv :
    (o : Option Outcome) {outcome : Outcome}
    → accepted_outcome o ≡ ok outcome
    → (o ≡ some outcome) × (outcome.status ≡ OutcomeStatus.accepted)
accepted_outcome-inv none e = cc
accepted_outcome-inv (some o) {outcome} e = elim (Bool-cases (is_accepted o.status)) [
  | inr other ↦ absurd (ground arith)
  | inl held ↦
      let same : o ≡ outcome = ok_inj (rw held at e) in
      (ap some same, ap (λ (x : Outcome). x.status) (sym same) ∙ is_accepted-inv o.status held)
]

pub derive_score-IsDerived :
    (call : SubmitCall) (s : GameSession) (db : Db) {scored : Scored}
    → derive_score call s db ≡ ok scored
    → IsDerived call s scored.score scored.game.key db
unfolding derive_score
derive_score-IsDerived call s db {scored} e = elim (Result-cases (active_player call.owner_id db)) [
  | inr (x, failed) ↦ absurd (ground arith)
  | inl (player, playing) ↦ elim (Option-cases (get_game_by_id s.game_id db)) [
    | inl missing ↦ absurd (ground arith)
    | inr (game, found) ↦ elim (Result-cases (as_ineligible (leaderboard_rules_for game.key))) [
      | inr (x, failed) ↦ absurd (ground arith)
      | inl (rules, ruled) ↦ elim (Result-cases (completed_at s)) [
        | inr (x, failed) ↦ absurd (ground arith)
        | inl (ended, over) ↦
            elim (Result-cases (accepted_outcome (get_outcome_by_session s.id db))) [
              | inr (x, failed) ↦ absurd (ground arith)
              | inl (outcome, held) ↦
                  elim (Option-cases (get_config_by_id s.config_version_id db)) [
                    | inl missing ↦ absurd (ground arith)
                    | inr (config, configured) ↦
                        elim (Result-cases
                          (as_invalid_play (leaderboard_score rules.key config outcome))) [
                            | inr (x, failed) ↦ absurd (ground arith)
                            | inl (value, valued) ↦
                                elim (Bool-cases (leb (leaderboard_period ended).end call.now)) [
                                  | inl closed ↦ absurd (ground arith)
                                  | inr open_still ↦
                                      let (listed, active) =
                                        active_player-inv call.owner_id db {player = player}
                                          playing in
                                      let (finished, at_end) =
                                        completed_at-inv s {ended = ended} over in
                                      let (drawn, accepted) =
                                        accepted_outcome-inv (get_outcome_by_session s.id db)
                                          {outcome = outcome} held in
                                      let score =
                                        final_score_of call s game outcome config ended value in
                                      let made : IsDerived call s score game.key db = (
                                        (player, listed, active),
                                        game,
                                        found,
                                        refl,
                                        finished,
                                        ended,
                                        at_end,
                                        outcome,
                                        drawn,
                                        accepted,
                                        config,
                                        configured,
                                        rules,
                                        as_ineligible-inv (leaderboard_rules_for game.key) ruled,
                                        as_invalid_play-inv
                                            (leaderboard_score rules.key config outcome) valued,
                                        ground arith,
                                        refl,
                                      ) in
                                      let same : record { game = game; score = score } ≡ scored =
                                        ok_inj (
                                          rw
                                            (
                                              playing, found, ruled, over, held, configured, valued,
                                              open_still, derive_score,
                                            )
                                            at e) in
                                      subst (λ (x : Scored). IsDerived call s x.score x.game.key db)
                                        same made
                                ]
                          ]
                  ]
            ]
      ]
    ]
  ]
]
