-- ===== src/Fairness/Honest.antt =====
-- app/services/fairness.py from a commitment to the verification of its proof.
pub mod Round
pub mod Verified
use python_rng_game_platform.Fairness.Evaluate.Draws.{draw-IsDrawn, IsDrawn}
use python_rng_game_platform.Base.{
  ℕ, ◌≡◌, refl, ap, ◌∙◌, sym, inl, inr, true, false, not, ◌&&◌, Bool, Bool-cases, Option, none,
  some, ok, err, Result, >>=-eq-ok, ok_inj, some_inj, arith, Text, Bytes, List, [], ◌∷◌, ◌++◌, ◌==◌,
  ==_refl, ==_iff, find?, any, select, All, ◌>>=◌,
}
use mathlib.Core.Path.{subst}
use python_rng_game_platform.Rng.Encoding.Laws.{IsByte}
use python_rng_game_platform.Rng.Types.{FairnessError, RewardBand, DailySpinDerivation}
use python_rng_game_platform.Rng.Verify.{server_seed_commitment, verify_daily_spin_proof}
use python_rng_game_platform.Rng.Verify.Complete.{accepted, proof_of, verify_complete}
use python_rng_game_platform.Rng.Derive.{derive_daily_spin}
use python_rng_game_platform.Rng.Derive.Inputs.{derive_sound, IsDraw}
use python_rng_game_platform.Rng.Messages.{daily_spin_mapping_digest}
use python_rng_game_platform.Models.Errors.{Error}
use python_rng_game_platform.Models.Equality.{fields_eq}
use python_rng_game_platform.Models.Rows.{
  Game, GameConfigVersion, GameSession, SessionStatus, FairnessProof, FairnessProofEvent,
  FairnessSeedCustody,
}
use python_rng_game_platform.Store.{
  Db, replace, same_key, lock_session, get_outcome, get_game_by_id, get_config_by_id,
}
use python_rng_game_platform.Store.Fairness.{
  get_fairness_seed_custody, get_fairness_proof_by_outcome, insert_event, by_sequence,
  list_fairness_proof_events,
}
use python_rng_game_platform.FairnessEvents.{commit_event_payload, revealed_event_payload}
use python_rng_game_platform.FairnessEvents.Payloads.{commit_payload_self, revealed_payload_self}
use python_rng_game_platform.Platform.{Platform}
use python_rng_game_platform.Sessions.{owned_session, previous_event}
use python_rng_game_platform.Fairness.{reward_bands_for, commit_facts, event_of}
use python_rng_game_platform.Fairness.Evaluate.{
  EvaluateCall, Located, Drawn, Material, material_of, caught_draw, draw_of, draw, spin_outcome,
  revealed_proof, reveal_facts, require,
}
use python_rng_game_platform.Fairness.Evaluate.Rows.{revealed_db, IsFree}
use python_rng_game_platform.Fairness.Evaluate.Once.{IsLocated}
use python_rng_game_platform.Fairness.Chain.{expected_hash, verify_fairness_event_chain}
use python_rng_game_platform.Fairness.Chain.Laws.{
  IsChain, IsSnapshot, verify_fairness_event_chain_iff,
}

-- A committed proof as its commitment left it: its session is the caller's, its seed is in custody under
-- its commitment, its mapping digest is that of its configuration's bands, and its chain is one event.
abbrev pub IsPending : Platform → EvaluateCall → Located → Db → Type 0
IsPending platform call at db =
    ((at.session.player_id == call.owner_id) ≡ true)
    × (custody : FairnessSeedCustody) × (get_fairness_seed_custody at.proof.id db ≡ some custody)
    × All IsByte custody.server_seed_material
    × (server_seed_commitment platform.crypto custody.server_seed_material
        ≡ ok at.proof.server_seed_commitment)
    × (game : Game) × (get_game_by_id at.proof.game_id db ≡ some game)
    × (at.proof.game_key ≡ game.key)
    × (config : GameConfigVersion) × (get_config_by_id at.proof.config_version_id db ≡ some config)
    × (bands : List RewardBand) × (reward_bands_for game.key config ≡ ok bands)
    × (daily_spin_mapping_digest platform.crypto bands ≡ ok at.proof.mapping_digest)
    × (now : ℕ) × (select (λ e. e.proof_id == at.proof.id) db.proof_events
        ≡ event_of platform (commit_facts at.proof now) ∷ [])

-- The replaced proof is the one that a query by its new outcome finds.
find?-outcome :
    (p : FairnessProof) (id : ℕ) (k : ℕ) (proofs : List FairnessProof) {old : FairnessProof}
    → find? (λ q. q.id == k) proofs ≡ some old
    → p.id ≡ k
    → p.outcome_id ≡ some id
    → any (λ q. not (q.id == p.id) && same_key q.outcome_id (some id)) proofs ≡ false
    → find? (λ q. same_key q.outcome_id (some id)) (replace (λ q. q.id) p proofs) ≡ some p
unfolding replace
find?-outcome p id k [] e own bound alone = cc
find?-outcome p id k (x ∷ xs) {old} e own bound alone = elim (Bool-cases (x.id == p.id)) [
  | inl here ↦ rw (here, bound, ==_refl id) refl
  | inr other ↦
      let mine : (x.id == k) ≡ false = rw own at other in
      let foreign : same_key x.outcome_id (some id) ≡ false = ground arith in
      rw (other, foreign)
        (find?-outcome p id k xs {old = old} (rw mine at e) own bound (ground arith))
]

-- The public proof of a reveal passes the recalculation.
reveal-recalculates :
    (platform : Platform) (call : EvaluateCall) (p : FairnessProof) (m : Material)
    (d : DailySpinDerivation) (bands : List RewardBand)
    → All IsByte m.custody.server_seed_material
    → server_seed_commitment platform.crypto m.custody.server_seed_material
      ≡ ok p.server_seed_commitment
    → daily_spin_mapping_digest platform.crypto bands ≡ ok p.mapping_digest
    → derive_daily_spin platform.crypto platform.fuel (draw_of p m call.client_seed bands)
      ≡ ok (some d)
    → verify_daily_spin_proof platform.crypto platform.fuel
        (record (proof_of p.server_seed_commitment (draw_of p m call.client_seed bands) d) {
          mapping_digest = p.mapping_digest;
        })
      ≡ ok (some accepted)
reveal-recalculates platform call p m d bands bytes sealed digested drawn =
    let i = draw_of p m call.client_seed bands in
    let same : d.mapping_digest ≡ p.mapping_digest =
      ok_inj
        (sym (derive_sound platform.crypto platform.fuel i {d = d} drawn).digested ∙ digested) in
    rw⁻¹ same (
      verify_complete platform.crypto platform.fuel i {t = p.server_seed_commitment} {d = d} bytes
        sealed drawn)

-- The chain of a commitment and its reveal is verified against the revealed proof.
revealed-chain :
    (platform : Platform) (call : EvaluateCall) (p : FairnessProof) (drawn : Drawn) (now : ℕ)
    → let first = event_of platform (commit_facts p now) in
      let shown = revealed_proof platform call p drawn in
      (verify_fairness_event_chain platform shown
        (first ∷ event_of platform (reveal_facts shown first call.now) ∷ [])).is_verified
      ≡ true
unfolding expected_hash commit_event_payload
revealed-chain platform call p drawn now =
    let first = event_of platform (commit_facts p now) in
    let shown = revealed_proof platform call p drawn in
    let second = event_of platform (reveal_facts shown first call.now) in
    (verify_fairness_event_chain_iff platform shown (first ∷ second ∷ [])).1 (
      ((refl, refl, refl), ((refl, refl, refl), tt)),
      (λ _. commit_payload_self shown, λ _. refl, λ _ _. revealed_payload_self shown),
    )
