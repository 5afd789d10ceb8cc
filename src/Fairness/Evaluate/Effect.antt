-- ===== src/Fairness/Evaluate/Effect.antt =====
-- What an answered `evaluate_fairness` of app/services/fairness.py did to the database.
use python_rng_game_platform.Fairness.Evaluate.Draws.{draw-IsDrawn}
use python_rng_game_platform.Store.Evidence.{
  outcome_audit, reward_audit, game_played_event, reward_event,
}
use python_rng_game_platform.FairnessEvents.{fairness_event_hash}
use python_rng_game_platform.Store.Fairness.{get_fairness_seed_custody}
use python_rng_game_platform.Base.{
  ℕ, ◌≡◌, ◌⊎◌, refl, ap, ◌∙◌, inl, inr, true, false, none, some, ok, ok_inj, arith, Text, ◌<◌, ◌∷◌,
  [], ◌++◌, ◌==◌, ==_iff, find?, Bytes, List, codes, Option-cases,
}
use python_rng_game_platform.Models.Rows.{
  Outcome, Reward, FairnessProof, FairnessProofEvent, is_active_session, is_committed, RewardStatus,
  OutcomeStatus,
}
use python_rng_game_platform.Store.{Db, lock_session, lock_latest_fairness_proof_event, replace}
use python_rng_game_platform.Platform.{Platform}
use python_rng_game_platform.Sessions.{is_due, previous_event}
use python_rng_game_platform.Fairness.Evaluate.{
  EvaluateCall, evaluation_fingerprint, Revealed, Located, evaluate_fairness, GameSession,
  ProofStatus, Game, SessionStatus, DailySpinDerivation, revealed_event_payload, hex,
  get_game_by_id, GameConfigVersion, get_config_by_id, FairnessSeedCustody, RewardBand,
  reward_bands_for, derive_daily_spin,
}
use python_rng_game_platform.Fairness.Evaluate.Rows.{IsFree}
use python_rng_game_platform.Fairness.Evaluate.Recorded.{
  IsAgain, IsReveal, evaluate_fairness-IsRecorded,
}
use python_rng_game_platform.Fairness.Evaluate.Once.{locate-IsLocated}
use python_rng_game_platform.Models.Json.{text, number, field, end}

-- The draw of a proof: from the seed in custody and the client's seed, over the reward bands of the proof's
-- configuration, bound to the proof's session, configuration, number and versions.
abbrev pub IsSpin :
    Platform → EvaluateCall → FairnessProof → Game → Bytes → DailySpinDerivation → Db → Type 0
IsSpin platform call p game seed d db =
    (get_game_by_id p.game_id db ≡ some game)
    × (config : GameConfigVersion) × (get_config_by_id p.config_version_id db ≡ some config)
    × (custody : FairnessSeedCustody) × (get_fairness_seed_custody p.id db ≡ some custody)
    × (custody.server_seed_material ≡ seed)
    × (bands : List RewardBand) × (reward_bands_for game.key config ≡ ok bands)
    × (derive_daily_spin platform.crypto platform.fuel (record {
      server_seed = seed;
      client_seed = call.client_seed;
      nonce = p.nonce;
      config_version_id = p.config_version_id;
      session_id = p.session_id;
      reward_bands = bands;
      game_key = p.game_key;
      protocol_version = p.protocol_version;
      algorithm = p.algorithm;
      mapping_version = p.mapping_version;
    })
        ≡ ok (some d))

-- What a draw `d` writes and answers, column by column.
module _ (platform : Platform) (call : EvaluateCall) (s : GameSession) (p : FairnessProof)
    (seed : Bytes) (d : DailySpinDerivation) where
  abbrev pub outcome_row : Outcome
  outcome_row = record {
    id = call.outcome_id;
    session_id = s.id;
    player_id = s.player_id;
    game_id = s.game_id;
    config_version_id = s.config_version_id;
    status = OutcomeStatus.accepted;
    result = field (codes "reward_key") (text d.reward.key) (
        field (codes "normalized_value") (number d.normalized_value)
          (field (codes "derivation_digest") (text d.raw_digest_hex) end));
  }

  abbrev pub reward_row : Reward
  reward_row = record {
    id = call.reward_id;
    created_at = call.created_at;
    outcome_id = some call.outcome_id;
    settlement_recipient_id = none;
    player_id = call.owner_id;
    status = RewardStatus.issued;
    value = d.reward.value;
    claimed_at = none;
  }

  abbrev pub proof_row : FairnessProof
  proof_row = record p {
    outcome_id = some call.outcome_id;
    status = ProofStatus.revealed;
    client_seed = some call.client_seed;
    evaluation_fingerprint = some (evaluation_fingerprint platform call);
    raw_random_value = some d.raw_digest_hex;
    normalized_value = some d.normalized_value;
    derivation_attempt = some d.attempt;
    reward_key = some d.reward.key;
    reward_value = some d.reward.value;
    evaluated_at = some call.now;
    server_seed_revealed = some (hex seed);
    revealed_at = some call.now;
  }

  abbrev pub event_row : FairnessProofEvent → FairnessProofEvent
  event_row previous = record {
    proof_id = p.id;
    sequence = 1;
    event_type = codes "revealed";
    evidence_version = 2;
    payload = revealed_event_payload proof_row;
    status = ProofStatus.revealed;
    previous_evidence_hash = some previous.evidence_hash;
    evidence_hash = fairness_event_hash platform (record {
      proof_id = p.id;
      sequence = 1;
      event_type = codes "revealed";
      status = ProofStatus.revealed;
      created_at = call.now;
      previous_evidence_hash = some previous.evidence_hash;
      payload = revealed_event_payload proof_row;
    });
    created_at = call.now;
  }

  abbrev pub completed_row : GameSession
  completed_row = record s { status = SessionStatus.completed; ended_at = some call.now }

  -- The tables with these rows, behind the event `previous`.
  abbrev pub written : Text → FairnessProofEvent → Db → Db
  written game_key previous db = record db {
    outcomes = db.outcomes ++ outcome_row ∷ [];
    rewards = db.rewards ++ reward_row ∷ [];
    proofs = replace (λ r. r.id) proof_row db.proofs;
    proof_events = db.proof_events ++ event_row previous ∷ [];
    sessions = replace (λ r. r.id) completed_row db.sessions;
    audits =
        (db.audits ++ outcome_audit outcome_row call.owner_id game_key ∷ [])
        ++ reward_audit (codes "reward_issued") reward_row game_key ∷ [];
    analytics =
        (db.analytics ++ game_played_event outcome_row call.owner_id game_key ∷ [])
        ++ reward_event (codes "reward_issued") reward_row game_key ∷ [];
  }

-- A committed proof of an active session that is not due: drawn, written and answered.
abbrev pub IsRevealed : Platform → EvaluateCall → Located → Revealed → Db → Db → Type 0
IsRevealed platform call at r db durable =
    (at.proof.status ≡ ProofStatus.committed)
    × (at.session.status ≡ SessionStatus.active)
    × (call.now < at.session.expires_at)
    × (game : Game) × (seed : Bytes) × (d : DailySpinDerivation) × IsSpin platform call at.proof
        game seed d db
    × (previous : FairnessProofEvent) × (lock_latest_fairness_proof_event at.proof.id db
        ≡ some previous)
    × IsFree call at.session at.proof db
    × (r ≡ record {
      outcome = outcome_row platform call at.session at.proof seed d;
      reward = reward_row platform call at.session at.proof seed d;
      proof = proof_row platform call at.session at.proof seed d;
    })
    × (durable ≡ written platform call at.session at.proof seed d game.key previous db)

is_committed-inv : (x : ProofStatus) → is_committed x ≡ true → x ≡ ProofStatus.committed
is_committed-inv ProofStatus.committed e = refl
is_committed-inv _ e = cc

is_active_session-inv : (x : SessionStatus) → is_active_session x ≡ true → x ≡ SessionStatus.active
is_active_session-inv SessionStatus.active e = refl
is_active_session-inv _ e = cc

not_due-before :
    (s : GameSession) (now : ℕ)
    → is_active_session s.status ≡ true
    → is_due s now ≡ false
    → now < s.expires_at
unfolding is_due
not_due-before s now active early = ground arith

previous_event-inv :
    (id : ℕ) (db : Db) {v : FairnessProofEvent}
    → previous_event id db ≡ ok v
    → lock_latest_fairness_proof_event id db ≡ some v
previous_event-inv id db {v} e = elim (Option-cases (lock_latest_fairness_proof_event id db)) [
  | inl missing ↦ absurd (ground arith)
  | inr (w, found) ↦ found ∙ ap some (ok_inj (rw (previous_event, found) at e))
]

IsReveal-IsRevealed :
    (platform : Platform) (call : EvaluateCall) (at : Located) (r : Revealed) (db durable : Db)
    → IsReveal platform call at r db durable
    → IsRevealed platform call at r db durable
IsReveal-IsRevealed platform call at r db durable
      (held, active, early, (drawn, made, previous, before, free, answer, changed)) =
    let (game, config, custody, bands, banded, derived) =
      draw-IsDrawn platform call at.proof db {drawn = drawn} made in
    let m = drawn.material in
    (
      is_committed-inv at.proof.status held,
      is_active_session-inv at.session.status active,
      not_due-before at.session call.now active early,
      m.game,
      m.custody.server_seed_material,
      drawn.derivation,
      (game, m.config, config, m.custody, custody, refl, bands, banded, derived),
      previous,
      previous_event-inv at.proof.id db {v = previous} before,
      free,
      answer,
      changed,
    )

-- What an evaluation that answers is: of the caller's own proof, again or for the first time.
abbrev pub IsEvaluated : Platform → EvaluateCall → Revealed → Db → Db → Type 0
IsEvaluated platform call r db durable =
    (at : Located) × (find? (λ p. p.id == call.proof_id) db.proofs ≡ some at.proof)
    × (at.proof.player_id ≡ call.owner_id)
    × (lock_session at.proof.session_id db ≡ some at.session)
    × (IsAgain platform call at r db durable ⊎ IsRevealed platform call at r db durable)

-- An evaluation that answers found the caller's own proof and its session. Either the proof is revealed
-- already by a request with the same fingerprint, and its stored outcome and reward are answered while
-- nothing changes; or the proof is committed and its session active and not due, the draw from the seed in
-- custody is answered, and exactly these rows are written: one outcome, one reward of the drawn value, the
-- proof with the evidence of the draw, the second event of its chain, the session as completed, two audit
-- records and two analytics events.
pub evaluate_fairness_effect :
    (platform : Platform) (call : EvaluateCall) (db : Db) {r : Revealed}
    → (evaluate_fairness platform call db).result ≡ ok r
    → IsEvaluated platform call r db (evaluate_fairness platform call db).durable
evaluate_fairness_effect platform call db {r} e =
    let (at, found, done) = evaluate_fairness-IsRecorded platform call db {r = r} e in
    let (held, own, locked) = locate-IsLocated call db {at = at} found in
    let durable = (evaluate_fairness platform call db).durable in
    (
      at,
      held,
      (==_iff at.proof.player_id call.owner_id).0 own,
      locked,
      elim done [
        | inl again ↦ inl again
        | inr shown ↦ inr (IsReveal-IsRevealed platform call at r db durable shown)
      ],
    )
