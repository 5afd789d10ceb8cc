-- ===== src/Fairness/Evaluate.antt =====
-- `evaluate_fairness` of app/services/fairness.py.
pub mod Rows
pub mod Draws
pub mod Recorded
pub mod Effect
pub mod Once
use python_rng_game_platform.Base.{
  ℕ, Bool, true, false, not, ◌||◌, Option, none, some, ◌==◌, ◌==ˢ◌, if◌then◌else◌, Text, codes,
  Result, ok, err, raise_if, ◌>>=◌, ◌>>◌, List, ◌≡◌, ap, ok_inj,
}
use python_rng_game_platform.Rng.Encoding.{hex}
use python_rng_game_platform.Rng.Types.{
  FairnessError, assertion, RewardBand, DailySpinDerivation, type_error,
}
use python_rng_game_platform.Rng.Derive.{DrawInput, derive_daily_spin}
use python_rng_game_platform.Models.Errors.{
  Error, fairness, not_found, forbidden, idempotency_conflict, invalid_play, invalid_transition,
  session_expired, still_drawing,
}
use python_rng_game_platform.Models.Json.{text, number, Fields, end, field}
use python_rng_game_platform.Models.Rows.{
  Game, GameConfigVersion, GameSession, SessionStatus, Outcome, Reward, FairnessProof, ProofStatus,
  FairnessProofEvent, FairnessSeedCustody, is_active_session, is_committed,
}
use python_rng_game_platform.Store.{
  Db, Reply, rolled_back, committed, lock_session, put_session, get_game_by_id, get_config_by_id,
  get_outcome, lock_reward_by_session, new_outcome, add_outcome, new_reward, add_reward,
  add_fairness_proof_event,
}
use python_rng_game_platform.Store.Fairness.{
  VisibleProof, get_fairness_proof, lock_fairness_proof, get_fairness_seed_custody,
  update_fairness_proof,
}
use python_rng_game_platform.Store.Evidence.{
  uuid_json, add_outcome_audit, add_game_played_event, add_reward_evidence,
}
use python_rng_game_platform.FairnessEvents.{EventFacts, revealed_event_payload}
use python_rng_game_platform.Platform.{Platform, request_fingerprint}
use python_rng_game_platform.Sessions.{ended, previous_event, finalize_session, Finalized}
use python_rng_game_platform.Fairness.{reward_bands_for, event_of}

-- The arguments of an evaluation: the request, the clock, and the keys that the new rows are given.
pub record EvaluateCall : Type 0 where
  pub proof_id : ℕ
  pub owner_id : ℕ
  pub client_seed : Text
  pub now : ℕ
  pub outcome_id : ℕ
  pub reward_id : ℕ
  pub created_at : ℕ

abbrev pub evaluation_fingerprint : Platform → EvaluateCall → Text
evaluation_fingerprint platform call = request_fingerprint platform (codes "evaluate_fairness") (
    field (codes "client_seed") (text call.client_seed)
      (field (codes "proof_id") (uuid_json call.proof_id) end))

-- What an evaluation answers.
pub record Revealed : Type 0 where
  pub outcome : Outcome
  pub reward : Reward
  pub proof : FairnessProof

-- The proof of a request and its session, both locked.
pub record Located : Type 0 where
  pub session : GameSession
  pub proof : FairnessProof

abbrev pub require : {A : Type 0} → Option A → Error → Result Error A
require none e = err e
require (some a) e = ok a

pub require-inv : {A : Type 0} (o : Option A) (e : Error) {a : A} → require o e ≡ ok a → o ≡ some a
require-inv none e h = cc
require-inv (some a) e h = ap some (ok_inj h)

unfoldable pub locate : EvaluateCall → Db → Result Error Located
locate call db = do
  visible ← require (get_fairness_proof call.proof_id db) not_found
  raise_if (not (visible.player_id == call.owner_id)) forbidden
  s ← require (lock_session visible.session_id db) not_found
  p ← require (lock_fairness_proof call.proof_id db) not_found
  ok (record { session = s; proof = p })

abbrev pub is_revealed : ProofStatus → Bool
is_revealed ProofStatus.revealed = true
is_revealed _ = false

abbrev pub is_text : Option Text → Text → Bool
is_text none t = false
is_text (some s) t = s ==ˢ t

abbrev pub rows_of : Option Outcome → Option Reward → FairnessProof → Result Error Revealed
rows_of (some o) (some r) p = ok (record { outcome = o; reward = r; proof = p })
rows_of _ _ p = err not_found

-- A revealed proof is answered again to the request that revealed it.
unfoldable pub reveal_again : Platform → EvaluateCall → FairnessProof → Db → Result Error Revealed
reveal_again platform call p db = do
  raise_if (not (is_text p.evaluation_fingerprint (evaluation_fingerprint platform call)))
      idempotency_conflict
  outcome_id ← require p.outcome_id invalid_transition
  rows_of (get_outcome outcome_id db) (lock_reward_by_session p.session_id db) p

-- What a draw needs besides the request.
pub record Material : Type 0 where
  pub game : Game
  pub config : GameConfigVersion
  pub custody : FairnessSeedCustody

abbrev pub material_of :
    Option Game → Option GameConfigVersion → Option FairnessSeedCustody → Result Error Material
material_of (some g) (some c) (some k) = ok (record { game = g; config = c; custody = k })
material_of _ _ _ = err not_found

-- `except FairnessError`; `none` is a draw that goes on past the fuel.
abbrev pub caught_draw :
    Result FairnessError (Option DailySpinDerivation) → Result Error DailySpinDerivation
caught_draw (ok none) = err still_drawing
caught_draw (ok (some d)) = ok d
caught_draw (err assertion) = err (fairness assertion)
caught_draw (err type_error) = err (fairness type_error)
caught_draw (err e) = err invalid_play

abbrev pub draw_of : FairnessProof → Material → Text → List RewardBand → DrawInput
draw_of p m client_seed bands = record {
  server_seed = m.custody.server_seed_material;
  client_seed = client_seed;
  nonce = p.nonce;
  config_version_id = p.config_version_id;
  session_id = p.session_id;
  reward_bands = bands;
  game_key = p.game_key;
  protocol_version = p.protocol_version;
  algorithm = p.algorithm;
  mapping_version = p.mapping_version;
}

-- The draw of a proof with its material.
pub record Drawn : Type 0 where
  pub material : Material
  pub derivation : DailySpinDerivation

unfoldable pub draw : Platform → EvaluateCall → FairnessProof → Db → Result Error Drawn
draw platform call p db = do
  m ←
      material_of (get_game_by_id p.game_id db) (get_config_by_id p.config_version_id db)
        (get_fairness_seed_custody p.id db)
  bands ← reward_bands_for m.game.key m.config
  d ←
      caught_draw
        (derive_daily_spin platform.crypto platform.fuel (draw_of p m call.client_seed bands))
  ok (record { material = m; derivation = d })

abbrev pub spin_result : DailySpinDerivation → Fields
spin_result d = field (codes "reward_key") (text d.reward.key) (
    field (codes "normalized_value") (number d.normalized_value)
      (field (codes "derivation_digest") (text d.raw_digest_hex) end))

abbrev pub revealed_proof : Platform → EvaluateCall → FairnessProof → Drawn → FairnessProof
revealed_proof platform call p drawn = record p {
  outcome_id = some call.outcome_id;
  status = ProofStatus.revealed;
  client_seed = some call.client_seed;
  evaluation_fingerprint = some (evaluation_fingerprint platform call);
  raw_random_value = some drawn.derivation.raw_digest_hex;
  normalized_value = some drawn.derivation.normalized_value;
  derivation_attempt = some drawn.derivation.attempt;
  reward_key = some drawn.derivation.reward.key;
  reward_value = some drawn.derivation.reward.value;
  evaluated_at = some call.now;
  server_seed_revealed = some (hex drawn.material.custody.server_seed_material);
  revealed_at = some call.now;
}

-- The event of the reveal, behind `previous`.
abbrev pub reveal_facts : FairnessProof → FairnessProofEvent → ℕ → EventFacts
reveal_facts p previous now = record {
  proof_id = p.id;
  sequence = 1;
  event_type = codes "revealed";
  status = ProofStatus.revealed;
  created_at = now;
  previous_evidence_hash = some previous.evidence_hash;
  payload = revealed_event_payload p;
}

abbrev pub spin_outcome : EvaluateCall → GameSession → Drawn → Outcome
spin_outcome call s drawn = new_outcome call.outcome_id s (spin_result drawn.derivation)

abbrev pub spin_reward : EvaluateCall → GameSession → Drawn → Reward
spin_reward call s drawn =
    new_reward call.reward_id call.created_at (spin_outcome call s drawn) call.owner_id
      drawn.derivation.reward.value

-- The rows that a reveal leaves, up to the commit.
unfoldable pub record_reveal :
    Platform → EvaluateCall → GameSession → FairnessProof → Drawn → Db → Result Error Db
record_reveal platform call s p drawn db = do
  let outcome = spin_outcome call s drawn
  let reward = spin_reward call s drawn
  let proof = revealed_proof platform call p drawn
  let game_key = drawn.material.game.key
  with_outcome ← add_outcome outcome db
  with_reward ← add_reward reward with_outcome
  previous ← previous_event p.id with_reward
  with_proof ← update_fairness_proof proof with_reward
  with_event ←
      add_fairness_proof_event (event_of platform (reveal_facts proof previous call.now)) with_proof
  let audited =
      add_outcome_audit outcome call.owner_id game_key
        (put_session (ended SessionStatus.completed call.now s) with_event)
  played ← add_game_played_event outcome call.owner_id game_key audited
  add_reward_evidence (codes "reward_issued") reward game_key played

abbrev pub revealed_of : Platform → EvaluateCall → Located → Drawn → Revealed
revealed_of platform call at drawn = record {
  outcome = spin_outcome call at.session drawn;
  reward = spin_reward call at.session drawn;
  proof = revealed_proof platform call at.proof drawn;
}

unfoldable pub reveal : Platform → EvaluateCall → Located → Db → Db → Reply Revealed
unfolding draw record_reveal
reveal platform call at db work = elim (draw platform call at.proof work) [
  | err e ↦ rolled_back e db
  | ok drawn ↦ elim (record_reveal platform call at.session at.proof drawn work) [
    | err e ↦ rolled_back e db
    | ok after ↦ committed (revealed_of platform call at drawn) after
  ]
]

unfoldable pub evaluate_finalized :
    Platform → EvaluateCall → Located → Db → Finalized → Reply Revealed
unfolding reveal
evaluate_finalized platform call at db fin =
    if fin.changed
    then record { result = err session_expired; durable = fin.work }
    else if not (is_committed at.proof.status) || not (is_active_session at.session.status)
    then rolled_back invalid_transition db
    else reveal platform call at db fin.work

-- A proof that is not revealed yet; the finalization is handed the locked proof.
unfoldable pub evaluate_unrevealed : Platform → EvaluateCall → Located → Db → Reply Revealed
unfolding evaluate_finalized
evaluate_unrevealed platform call at db =
    elim (finalize_session platform (λ _. some at.proof) at.session call.now db) [
      | err e ↦ rolled_back e db
      | ok fin ↦ evaluate_finalized platform call at db fin
    ]

unfoldable pub evaluate_revealed : Platform → EvaluateCall → FairnessProof → Db → Reply Revealed
unfolding reveal_again
evaluate_revealed platform call p db = elim (reveal_again platform call p db) [
  | err e ↦ rolled_back e db
  | ok answer ↦ committed answer db
]

unfoldable pub evaluate_located : Platform → EvaluateCall → Located → Db → Reply Revealed
unfolding evaluate_unrevealed evaluate_revealed
evaluate_located platform call at db =
    if is_revealed at.proof.status
    then evaluate_revealed platform call at.proof db
    else evaluate_unrevealed platform call at db

unfoldable pub evaluate_fairness : Platform → EvaluateCall → Db → Reply Revealed
unfolding locate evaluate_located
evaluate_fairness platform call db = elim (locate call db) [
  | err e ↦ rolled_back e db
  | ok at ↦ evaluate_located platform call at db
]
