-- ===== src/Gameplay/Rows.antt =====
-- The rows that `play_session` of app/services/gameplay.py writes.
use python_rng_game_platform.Base.{
  ℕ, ◌≡◌, ap, ◌∙◌, [], ◌∷◌, ◌++◌, Text, codes, Result, ok, >>=-eq-ok, arith, ◌>>=◌,
}
use python_rng_game_platform.Models.Errors.{Error}
use python_rng_game_platform.Models.Rows.{GameSession, SessionStatus, Outcome, Reward}
use python_rng_game_platform.Store.{
  Db, replace, new_outcome, new_reward, add_outcome, add_reward, put_session,
}
use python_rng_game_platform.Store.Evidence.{
  outcome_audit, reward_audit, game_played_event, reward_event, add_outcome_audit,
  add_game_played_event, add_reward_evidence, add_audit, add_event,
}
use python_rng_game_platform.Sessions.{ended}
use python_rng_game_platform.Claims.{reward_value}
use python_rng_game_platform.Gameplay.{PlayCall, Evaluated, record_play}

abbrev pub outcome_of : GameSession → PlayCall → Evaluated → Outcome
outcome_of s call play = new_outcome call.outcome_id s play.result

abbrev pub reward_of : GameSession → PlayCall → Evaluated → ℕ → Reward
reward_of s call play value =
    new_reward call.reward_id call.created_at (outcome_of s call play) call.owner_id value

-- The tables after a play: the outcome, its reward, the completed session, two audit records and two
-- events.
abbrev pub played_db : GameSession → PlayCall → Evaluated → ℕ → Db → Db
played_db s call play value db = record db {
  outcomes = db.outcomes ++ outcome_of s call play ∷ [];
  rewards = db.rewards ++ reward_of s call play value ∷ [];
  sessions = replace (λ r. r.id) (ended SessionStatus.completed call.now s) db.sessions;
  audits =
      (db.audits ++ outcome_audit (outcome_of s call play) call.owner_id play.game.key ∷ [])
      ++ reward_audit (codes "reward_issued") (reward_of s call play value) play.game.key ∷ [];
  analytics =
      (db.analytics ++ game_played_event (outcome_of s call play) call.owner_id play.game.key ∷ [])
      ++ reward_event (codes "reward_issued") (reward_of s call play value) play.game.key ∷ [];
}

pub add_outcome-inv :
    (o : Outcome) (db : Db) {work : Db}
    → add_outcome o db ≡ ok work
    → work ≡ record db { outcomes = db.outcomes ++ o ∷ [] }
unfolding add_outcome
add_outcome-inv o db {work} e = ground arith

pub add_reward-inv :
    (r : Reward) (db : Db) {work : Db}
    → add_reward r db ≡ ok work
    → work ≡ record db { rewards = db.rewards ++ r ∷ [] }
unfolding add_reward
add_reward-inv r db {work} e = ground arith

pub add_game_played_event-inv :
    (o : Outcome) (player_id : ℕ) (game_key : Text) (db : Db) {work : Db}
    → add_game_played_event o player_id game_key db ≡ ok work
    → work ≡ record db { analytics = db.analytics ++ game_played_event o player_id game_key ∷ [] }
unfolding add_game_played_event add_event
add_game_played_event-inv o player_id game_key db {work} e = ground arith

pub add_reward_evidence-inv :
    (r : Reward) (game_key : Text) (db : Db) {work : Db}
    → add_reward_evidence (codes "reward_issued") r game_key db ≡ ok work
    → work ≡ record db {
      audits = db.audits ++ reward_audit (codes "reward_issued") r game_key ∷ [];
      analytics = db.analytics ++ reward_event (codes "reward_issued") r game_key ∷ [];
    }
unfolding add_reward_evidence add_audit add_event
add_reward_evidence-inv r game_key db {work} e = ground arith

module _ (s : GameSession) (call : PlayCall) (play : Evaluated) where
  outcome : Outcome
  outcome = outcome_of s call play

  audited : Db → Db
  unfolding outcome
  audited db =
      add_outcome_audit outcome call.owner_id play.game.key
        (put_session (ended SessionStatus.completed call.now s) db)

  evidenced : ℕ → Db → Result Error Db
  unfolding audited outcome
  evidenced value db =
      add_game_played_event outcome call.owner_id play.game.key (audited db)
      >>= add_reward_evidence (codes "reward_issued") (reward_of s call play value) play.game.key

  rewarded : Db → ℕ → Result Error Db
  unfolding evidenced
  rewarded db value = add_reward (reward_of s call play value) db >>= evidenced value

  valued : Db → Result Error Db
  unfolding rewarded outcome
  valued db = reward_value play.config outcome play.game.key >>= rewarded db

  -- The completed session and the evidence of its play.
  abbrev completed_db : ℕ → Db → Db
  completed_db value db = record db {
    sessions = replace (λ r. r.id) (ended SessionStatus.completed call.now s) db.sessions;
    audits =
        (db.audits ++ outcome_audit (outcome_of s call play) call.owner_id play.game.key ∷ [])
        ++ reward_audit (codes "reward_issued") (reward_of s call play value) play.game.key ∷ [];
    analytics =
        (db.analytics
          ++ game_played_event (outcome_of s call play) call.owner_id play.game.key ∷ [])
        ++ reward_event (codes "reward_issued") (reward_of s call play value) play.game.key ∷ [];
  }

  evidenced-inv :
      (value : ℕ) (db : Db) {work : Db}
      → evidenced value db ≡ ok work
      → work ≡ completed_db value db
  unfolding evidenced audited outcome add_outcome_audit put_session add_audit
  evidenced-inv value db {work} e =
      let reward = reward_of s call play value in
      let played =
        >>=-eq-ok (add_game_played_event outcome call.owner_id play.game.key (audited db))
          (add_reward_evidence (codes "reward_issued") reward play.game.key) e in
      add_reward_evidence-inv reward play.game.key played.0 played.2
      ∙ ap
          (λ (x : Db). record x {
            audits = x.audits ++ reward_audit (codes "reward_issued") reward play.game.key ∷ [];
            analytics =
                x.analytics ++ reward_event (codes "reward_issued") reward play.game.key ∷ [];
          })
          (add_game_played_event-inv outcome call.owner_id play.game.key (audited db) played.1)

  -- The rows that a recorded play leaves, and the value of its reward.
  pub record_play-inv :
      (db : Db) {work : Db}
      → record_play s call play db ≡ ok work
      → (value : ℕ) × (reward_value play.config (outcome_of s call play) play.game.key ≡ ok value)
        × (work ≡ played_db s call play value db)
  unfolding record_play evidenced rewarded valued audited outcome
  record_play-inv db {work} e =
      let added = >>=-eq-ok (add_outcome outcome db) valued e in
      let worth =
        >>=-eq-ok (reward_value play.config outcome play.game.key) (rewarded added.0) added.2 in
      let issued =
        >>=-eq-ok (add_reward (reward_of s call play worth.0) added.0) (evidenced worth.0)
          worth.2 in
      (
        worth.0,
        worth.1,
        evidenced-inv worth.0 issued.0 issued.2
            ∙ ap (completed_db worth.0)
                (add_reward-inv (reward_of s call play worth.0) added.0 issued.1)
            ∙ ap
                (λ (x : Db).
                  completed_db worth.0
                    (record x { rewards = x.rewards ++ reward_of s call play worth.0 ∷ [] }))
                (add_outcome-inv outcome db added.1),
      )
