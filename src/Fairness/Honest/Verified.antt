-- ===== src/Fairness/Honest/Verified.antt =====
-- app/services/fairness.py: a revealed proof is verified by `verify_fairness_proof`.
use mathlib.Core.Path.{subst}
use python_rng_game_platform.Base.{
  All, ℕ, ◌≡◌, refl, ap, ◌∙◌, sym, inl, inr, true, Bool, Bool-cases, some, ok, ok_inj, some_inj,
  List, [], ◌∷◌, ◌++◌, ◌==◌, ==_refl, select,
}
use python_rng_game_platform.Rng.Types.{RewardBand}
use python_rng_game_platform.Rng.Encoding.{hex}
use python_rng_game_platform.Rng.Encoding.Laws.{IsByte}
use python_rng_game_platform.Rng.Messages.{daily_spin_mapping_digest}
use python_rng_game_platform.Rng.Verify.{server_seed_commitment, verify_daily_spin_proof}
use python_rng_game_platform.Rng.Verify.Complete.{accepted}
use python_rng_game_platform.Models.Rows.{
  Game, GameConfigVersion, FairnessSeedCustody, ProofStatus, SessionStatus, FairnessProof,
  FairnessProofEvent,
}
use python_rng_game_platform.Store.{
  Db, lock_session, get_config_by_id, lock_latest_fairness_proof_event, top,
}
use python_rng_game_platform.Store.Lookups.{lock_session-id, find?-key}
use python_rng_game_platform.Store.Fairness.{
  get_fairness_proof_by_outcome, insert_event, by_sequence, list_fairness_proof_events,
}
use python_rng_game_platform.Platform.{Platform}
use python_rng_game_platform.Sessions.{ended, owned_session, previous_event}
use python_rng_game_platform.Fairness.{reward_bands_for, commit_facts, event_of}
use python_rng_game_platform.Fairness.Evaluate.{
  EvaluateCall, Located, Revealed, Drawn, spin_outcome, revealed_proof, reveal_facts,
}
use python_rng_game_platform.Fairness.Evaluate.Rows.{revealed_db, IsFree}
use python_rng_game_platform.Fairness.Evaluate.Recorded.{IsReveal}
use python_rng_game_platform.Fairness.Evaluate.Once.{IsLocated, IsLocated-after, get_outcome-after}
use python_rng_game_platform.Fairness.Chain.{verify_fairness_event_chain}
use python_rng_game_platform.Fairness.Retrieve.{
  Retrieved, public_proof, as_revealed_proof, owned_outcome, retrieve_fairness_proof, judge_chain,
  Verification, verify_fairness_proof,
}
use python_rng_game_platform.Fairness.Honest.{
  IsPending, draw-IsDrawn, find?-outcome, reveal-recalculates, revealed-chain,
}

pub select-append :
    {A : Type 0} (test : A → Bool) (xs : List A) {a : A}
    → test a ≡ true
    → select test (xs ++ a ∷ []) ≡ select test xs ++ a ∷ []
select-append test [] passes = rw passes refl
select-append test (x ∷ xs) {a} passes = elim (Bool-cases (test x)) [
  | inl hit ↦ rw (hit, select-append test xs {a = a} passes) refl
  | inr miss ↦ rw (miss, select-append test xs {a = a} passes) refl
]

module _ (platform : Platform) (call : EvaluateCall) (at : Located) (drawn : Drawn) (db : Db)
    (previous : FairnessProofEvent) where
  abbrev shown : FairnessProof
  shown = revealed_proof platform call at.proof drawn

  abbrev after : Db
  after = revealed_db platform call at.session at.proof drawn previous db

  -- The revealed proof is found under its outcome.
  by_outcome-after :
      IsLocated call at db
      → IsFree call at.session at.proof db
      → get_fairness_proof_by_outcome call.outcome_id after ≡ some shown
  unfolding get_fairness_proof_by_outcome
  by_outcome-after (held, own, locked) (free, unpaid, unclaimed) =
      find?-outcome shown call.outcome_id call.proof_id db.proofs {old = at.proof} held
        (find?-key (λ (p : FairnessProof). p.id) call.proof_id db.proofs {a = at.proof} held) refl
        unclaimed

  -- The new outcome is the caller's.
  owned_outcome-after :
      IsLocated call at db
      → IsFree call at.session at.proof db
      → (at.session.player_id == call.owner_id) ≡ true
      → owned_outcome call.outcome_id call.owner_id after ≡ ok (spin_outcome call at.session drawn)
  unfolding owned_outcome owned_session
  owned_outcome-after located free own =
      let locked : lock_session at.session.id after
          ≡ some (ended SessionStatus.completed call.now at.session) =
        ap (λ id. lock_session id after)
          (lock_session-id at.proof.session_id db {s = at.session} located.2)
        ∙ (IsLocated-after platform call at drawn previous db located).2 in
      rw
        (
          get_outcome-after platform call at drawn previous db free,
          locked,
          own,
          owned_outcome,
          owned_session,
        )
        refl

  -- The two events of the chain, in order.
  events-after :
      (now : ℕ)
      → select (λ e. e.proof_id == at.proof.id) db.proof_events
        ≡ event_of platform (commit_facts at.proof now) ∷ []
      → previous_event at.proof.id db ≡ ok previous
      → list_fairness_proof_events at.proof.id after
        ≡ event_of platform (commit_facts at.proof now)
          ∷ event_of platform
              (reveal_facts shown (event_of platform (commit_facts at.proof now)) call.now)
          ∷ []
  unfolding list_fairness_proof_events by_sequence insert_event lock_latest_fairness_proof_event top
  events-after now one before =
      let first = event_of platform (commit_facts at.proof now) in
      let latest : lock_latest_fairness_proof_event at.proof.id db ≡ some first =
        rw (one, lock_latest_fairness_proof_event) refl in
      let same : first ≡ previous = ok_inj (rw (latest, previous_event) at before) in
      let both : select (λ e. e.proof_id == at.proof.id) after.proof_events
          ≡ first ∷ event_of platform (reveal_facts shown previous call.now) ∷ [] =
        select-append (λ (e : FairnessProofEvent). e.proof_id == at.proof.id) db.proof_events
          {a = event_of platform (reveal_facts shown previous call.now)} (==_refl at.proof.id)
        ∙ ap
            (λ (es : List FairnessProofEvent).
              es ++ event_of platform (reveal_facts shown previous call.now) ∷ [])
            one in
      ap by_sequence both
      ∙ ap
          (λ (e : FairnessProofEvent).
            first ∷ event_of platform (reveal_facts shown e call.now) ∷ [])
          (sym same)

  -- What the owner retrieves.
  abbrev retrieved : List RewardBand → Retrieved
  retrieved bands = record {
    proof = record {
      proof_id = at.proof.id;
      outcome_id = call.outcome_id;
      status = ProofStatus.revealed;
      protocol_version = at.proof.protocol_version;
      algorithm = at.proof.algorithm;
      server_seed_commitment = at.proof.server_seed_commitment;
      server_seed_revealed = hex drawn.material.custody.server_seed_material;
      client_seed = call.client_seed;
      nonce = at.proof.nonce;
      game_key = at.proof.game_key;
      session_id = at.proof.session_id;
      config_version_id = at.proof.config_version_id;
      mapping_version = at.proof.mapping_version;
      mapping_digest = at.proof.mapping_digest;
      raw_random_value = drawn.derivation.raw_digest_hex;
      normalized_value = drawn.derivation.normalized_value;
      derivation_attempt = drawn.derivation.attempt;
      reward_key = drawn.derivation.reward.key;
      reward_value = drawn.derivation.reward.value;
      evaluated_at = call.now;
      revealed_at = call.now;
    };
    bands = bands;
  }

  retrieve-after :
      (bands : List RewardBand)
      → owned_outcome call.outcome_id call.owner_id after ≡ ok (spin_outcome call at.session drawn)
      → get_fairness_proof_by_outcome call.outcome_id after ≡ some shown
      → get_config_by_id at.proof.config_version_id db ≡ some drawn.material.config
      → reward_bands_for at.proof.game_key drawn.material.config ≡ ok bands
      → retrieve_fairness_proof call.outcome_id call.owner_id after ≡ ok (retrieved bands)
  unfolding retrieve_fairness_proof as_revealed_proof get_config_by_id
  retrieve-after bands owned found config banded =
      rw
        (owned, found, config, banded, retrieve_fairness_proof, as_revealed_proof, get_config_by_id)
        refl

  verify-after :
      (bands : List RewardBand) (events : List FairnessProofEvent)
      → retrieve_fairness_proof call.outcome_id call.owner_id after ≡ ok (retrieved bands)
      → get_fairness_proof_by_outcome call.outcome_id after ≡ some shown
      → verify_daily_spin_proof platform.crypto platform.fuel (public_proof (retrieved bands))
        ≡ ok (some accepted)
      → list_fairness_proof_events at.proof.id after ≡ events
      → verify_fairness_proof platform call.outcome_id call.owner_id after
        ≡ ok (record {
          retrieved = retrieved bands;
          verdict = verify_fairness_event_chain platform shown events;
        })
  unfolding verify_fairness_proof judge_chain
  verify-after bands events held found passed listed =
      rw (held, found, passed, listed, verify_fairness_proof, judge_chain) refl

-- What the verification of an outcome answers: a positive verdict.
abbrev pub IsVerified : Platform → ℕ → ℕ → Db → Type 0
IsVerified platform outcome_id owner_id db =
    (v : Verification) × (verify_fairness_proof platform outcome_id owner_id db ≡ ok v)
    × (v.verdict.is_verified ≡ true)

-- A reveal of a proof that its commitment left as it was is verified by its owner.
pub reveal-IsVerified :
    (platform : Platform) (call : EvaluateCall) (at : Located) (r : Revealed) (db durable : Db)
    → IsLocated call at db
    → IsPending platform call at db
    → IsReveal platform call at r db durable
    → IsVerified platform call.outcome_id call.owner_id durable
reveal-IsVerified platform call at r db durable located
      (
        own, custody, kept, bytes, sealed, game, gamed, keyed, config, bound, bands, banded,
        digested, now, one,
      )
      (pending, active, early, (drawn, made, previous, before, free, answer, changed)) =
    let p = at.proof in
    let (eg, ec, ek, drawn_bands, eb, derived) =
      draw-IsDrawn platform call p db {drawn = drawn} made in
    let m = drawn.material in
    let same_seed : custody ≡ m.custody = some_inj (sym kept ∙ ek) in
    let same_config : config ≡ m.config = some_inj (sym bound ∙ ec) in
    let same_game : game ≡ m.game = some_inj (sym gamed ∙ eg) in
    let bands_of : reward_bands_for p.game_key m.config ≡ ok drawn_bands =
      ap (λ k. reward_bands_for k m.config) (keyed ∙ ap (λ (g : Game). g.key) same_game) ∙ eb in
    let same_bands : bands ≡ drawn_bands = ok_inj (
      sym banded
      ∙ ap (λ (c : GameConfigVersion). reward_bands_for game.key c) same_config
      ∙ ap (λ (g : Game). reward_bands_for g.key m.config) same_game
      ∙ eb) in
    let found = by_outcome-after platform call at drawn db previous located free in
    let events = events-after platform call at drawn db previous now one before in
    let held =
      retrieve-after platform call at drawn db previous drawn_bands
        (owned_outcome-after platform call at drawn db previous located free own) found ec
        bands_of in
    let passed =
      reveal-recalculates platform call p m drawn.derivation drawn_bands
        (subst (λ (k : FairnessSeedCustody). All IsByte k.server_seed_material) same_seed bytes)
        (ap
            (λ (k : FairnessSeedCustody).
              server_seed_commitment platform.crypto k.server_seed_material)
            (sym same_seed)
          ∙ sealed)
        (ap (daily_spin_mapping_digest platform.crypto) (sym same_bands) ∙ digested) derived in
    let done : IsVerified platform call.outcome_id call.owner_id
        (revealed_db platform call at.session p drawn previous db) =
      (
        _,
        verify-after platform call at drawn db previous drawn_bands _ held found passed events,
        revealed-chain platform call p drawn now,
      ) in
    subst (IsVerified platform call.outcome_id call.owner_id) (sym changed) done
