-- ===== src/Tests/Fairness.antt =====
-- The theorems on app/services/fairness.py at a round of the daily spin that meets their hypotheses.
use python_rng_game_platform.Base.{
  ℕ, ◌≡◌, ◌≢◌, ◌↔◌, refl, true, false, [], ◌∷◌, none, codes, ok, Text, ◌==ˢ◌, ==ˢ_complete, Bytes,
}
use python_rng_game_platform.Rng.Encoding.{
  decimal, decimal_rounds, hex, hex_digit, is_hex_digit, int_from_bytes, from_big_endian, to_bytes,
  uuid_str, dashed, group,
}
use python_rng_game_platform.Rng.Encoding.Laws.{to_bytes-IsByte}
use python_rng_game_platform.Rng.Types.{
  validate_server_seed, validate_client_seed, is_printable, validate_nonce, validate_digest,
  validate_supported_v1, validate_band, validate_bands, validate_reward_bands, is_nil,
  protocol_version_v1, algorithm_hmac_sha256, daily_spin_mapping_version_v1, daily_spin_game_key,
}
use python_rng_game_platform.Rng.Uniform.{rejection_limit}
use python_rng_game_platform.Rng.Select.{select_loop, select_daily_spin_reward}
use python_rng_game_platform.Rng.Messages.{
  field as message_field, sized_field, band_lines, all_band_lines, daily_spin_mapping_bytes,
  daily_spin_mapping_digest, message_bytes, validate_message, daily_spin_derivation_message,
}
use python_rng_game_platform.Rng.Derive.{accept, derive_loop, validate_draw, derive_daily_spin}
use python_rng_game_platform.Rng.Verify.{server_seed_commitment}
use python_rng_game_platform.Rng.Tests.{drawn}
use python_rng_game_platform.Models.Errors.{idempotency_conflict}
use python_rng_game_platform.Models.Json.{Json, get}
use python_rng_game_platform.Models.Schemas.{
  daily_spin_config, shaped, validate_payload, between, payload_fits, char_count, band_fits,
}
use python_rng_game_platform.Models.Rows.{
  Game, GameConfigVersion, ConfigStatus, GameSession, FairnessProof, FairnessProofEvent,
}
use python_rng_game_platform.GameRules.{key_text, fairness_reward_bands, validated_config}
use python_rng_game_platform.GameRules.Registry.{
  rules_for, game_key_of, registered, fairness_rules_for,
}
use python_rng_game_platform.Store.{
  Db, rolled_back, committed, replace, top, lock_session, put_session, get_game_by_id,
  get_config_by_id, lock_fairness_proof_by_session, lock_latest_fairness_proof_event,
  add_fairness_proof_event, add_outcome, add_reward,
}
use python_rng_game_platform.Store.Evidence.{
  add_audit, add_event, add_outcome_audit, add_game_played_event, add_reward_evidence,
}
use python_rng_game_platform.Store.Fairness.{
  add_fairness_proof, add_fairness_seed_custody, get_fairness_seed_custody, get_fairness_proof,
  lock_fairness_proof, update_fairness_proof,
}
use python_rng_game_platform.Platform.{Platform, request_fingerprint}
use python_rng_game_platform.Sessions.{is_due, finalize_session, owned_session}
use python_rng_game_platform.Fairness.{
  CommitCall, new_proof, commit_proof, commit_facts, event_of, record_commit, commit_fresh,
  commit_bound_session, commit_active, commit_finalized, commit_owned, commit_fairness,
  reward_bands_for,
}
use python_rng_game_platform.Fairness.Commit.{IsCommitted, commit_fairness_effect}
use python_rng_game_platform.Fairness.Commit.Once.{commit_fairness_once}
use python_rng_game_platform.Fairness.Evaluate.{
  EvaluateCall, evaluation_fingerprint, Revealed, revealed_of, locate, draw, record_reveal, reveal,
  evaluate_finalized, evaluate_unrevealed, evaluate_located, evaluate_fairness,
}
use python_rng_game_platform.Fairness.Evaluate.Effect.{IsEvaluated, evaluate_fairness_effect}
use python_rng_game_platform.Fairness.Evaluate.Once.{
  evaluate_fairness_once, evaluate_fairness_conflict,
}
use python_rng_game_platform.Fairness.Chain.{verify_fairness_event_chain}
use python_rng_game_platform.Fairness.Chain.Laws.{
  IsChain, IsSnapshot, verify_fairness_event_chain_iff,
}
use python_rng_game_platform.Fairness.Honest.Verified.{IsVerified}
use python_rng_game_platform.Fairness.Honest.Round.{fair_round-IsVerified}
use python_rng_game_platform.Tests.{platform, tables, active_session}

abbrev text_of : Json → Bytes
text_of (Json.text t) = t
text_of _ = []

abbrev client_seed_of : Json → Bytes
client_seed_of (Json.object fields) = text_of (get (codes "client_seed") fields)
client_seed_of _ = []

-- Its `dumps` renders no more than the client seed of a request.
abbrev spin_platform : Platform
spin_platform = record platform { dumps = λ fields. client_seed_of (get (codes "input") fields) }

abbrev spin_game : Game
spin_game = record { id = 2; key = codes "daily_spin"; is_active = true }

abbrev spin_config : GameConfigVersion
spin_config = record {
  id = 3;
  game_id = 2;
  version = 1;
  status = ConfigStatus.published;
  payload = shaped (
      daily_spin_config (record {
        cooldown_seconds = 60;
        rewards =
            record { key = codes "coins_10"; weight = 80; value = 10 }
            ∷ record { key = codes "coins_50"; weight = 20; value = 50 }
            ∷ [];
      }));
}

abbrev spin_session : GameSession
spin_session = record active_session { id = 4 }

abbrev spinning : Db
spinning = record (tables (spin_session ∷ [])) {
  games = spin_game ∷ [];
  configs = spin_config ∷ [];
}

abbrev commit_call : ℕ → CommitCall
commit_call proof_id = record {
  session_id = 4;
  owner_id = 1;
  now = 3000;
  proof_id = proof_id;
  seed = to_bytes 32 7;
}

abbrev spin_proof : FairnessProof
spin_proof =
    new_proof (commit_call 11) spin_session (record { game = spin_game; config = spin_config })
      (hex (to_bytes 32 7)) drawn.mapping_digest

commit_run : (commit_fairness spin_platform (commit_call 11) spinning).result ≡ ok spin_proof
unfolding commit_fairness commit_owned commit_finalized commit_active commit_bound_session
    commit_fresh commit_proof record_commit reward_bands_for fairness_rules_for
    fairness_reward_bands validated_config validate_payload payload_fits between band_fits
    char_count rules_for game_key_of registered key_text ◌==ˢ◌ owned_session lock_session
    finalize_session is_due get_game_by_id get_config_by_id lock_fairness_proof_by_session
    server_seed_commitment validate_server_seed daily_spin_mapping_digest daily_spin_mapping_bytes
    all_band_lines band_lines message_field sized_field decimal decimal_rounds hex hex_digit
    to_bytes int_from_bytes from_big_endian validate_reward_bands validate_bands validate_band
    is_nil add_fairness_proof add_fairness_seed_custody add_fairness_proof_event
commit_run = refl

commit_fairness_effect_example :
    IsCommitted spin_platform
      (commit_call 11)
      spin_proof
      spinning
      (commit_fairness spin_platform (commit_call 11) spinning).durable
commit_fairness_effect_example =
    commit_fairness_effect spin_platform (commit_call 11) spinning {p = spin_proof} commit_run

spin_owned : owned_session 4 1 spinning ≡ ok spin_session
unfolding owned_session lock_session
spin_owned = refl

spin_early : is_due spin_session 3000 ≡ false
unfolding is_due
spin_early = refl

commit_fairness_once_example :
    commit_fairness spin_platform
      (commit_call 12)
      (commit_fairness spin_platform (commit_call 11) spinning).durable
    ≡ committed spin_proof (commit_fairness spin_platform (commit_call 11) spinning).durable
commit_fairness_once_example =
    commit_fairness_once spin_platform (commit_call 11) (commit_call 12) spinning spin_session
      {p = spin_proof} commit_run refl refl spin_owned spin_early

abbrev evaluate_call : Text → EvaluateCall
evaluate_call client_seed = record {
  proof_id = 11;
  owner_id = 1;
  client_seed = client_seed;
  now = 3100;
  outcome_id = 5;
  reward_id = 6;
  created_at = 3000;
}

abbrev lucky : EvaluateCall
lucky = evaluate_call (codes "lucky")

abbrev pending : Db
pending = (commit_fairness spin_platform (commit_call 11) spinning).durable

abbrev spin_answer : Revealed
spin_answer =
    revealed_of spin_platform lucky (record { session = spin_session; proof = spin_proof })
      (record {
        material = record {
          game = spin_game;
          config = spin_config;
          custody = record { proof_id = 11; server_seed_material = to_bytes 32 7 };
        };
        derivation = drawn;
      })

evaluate_run : (evaluate_fairness spin_platform lucky pending).result ≡ ok spin_answer
unfolding commit_fairness commit_owned commit_finalized commit_active commit_bound_session
    commit_fresh commit_proof record_commit reward_bands_for fairness_rules_for
    fairness_reward_bands validated_config validate_payload payload_fits between band_fits
    char_count rules_for game_key_of registered key_text ◌==ˢ◌ owned_session lock_session
    finalize_session is_due get_game_by_id get_config_by_id lock_fairness_proof_by_session
    server_seed_commitment validate_server_seed daily_spin_mapping_digest daily_spin_mapping_bytes
    all_band_lines band_lines message_field sized_field decimal decimal_rounds hex hex_digit
    to_bytes int_from_bytes from_big_endian validate_reward_bands validate_bands validate_band
    is_nil add_fairness_proof add_fairness_seed_custody add_fairness_proof_event evaluate_fairness
    evaluate_located evaluate_unrevealed evaluate_finalized reveal draw record_reveal locate
    get_fairness_proof lock_fairness_proof get_fairness_seed_custody update_fairness_proof
    lock_latest_fairness_proof_event top derive_daily_spin validate_draw validate_supported_v1
    validate_nonce derive_loop daily_spin_derivation_message validate_message validate_client_seed
    is_printable validate_digest is_hex_digit message_bytes uuid_str dashed group accept
    select_daily_spin_reward select_loop rejection_limit protocol_version_v1 algorithm_hmac_sha256
    daily_spin_mapping_version_v1 daily_spin_game_key request_fingerprint get add_outcome add_reward
    add_outcome_audit put_session replace add_game_played_event add_reward_evidence add_audit
    add_event
evaluate_run = refl

evaluate_fairness_effect_example :
    IsEvaluated spin_platform lucky spin_answer pending
      (evaluate_fairness spin_platform lucky pending).durable
evaluate_fairness_effect_example =
    evaluate_fairness_effect spin_platform lucky pending {r = spin_answer} evaluate_run

evaluate_fairness_once_example :
    evaluate_fairness spin_platform lucky (evaluate_fairness spin_platform lucky pending).durable
    ≡ committed spin_answer (evaluate_fairness spin_platform lucky pending).durable
evaluate_fairness_once_example =
    evaluate_fairness_once spin_platform lucky lucky pending {r = spin_answer} evaluate_run refl
      refl refl

prints_differ :
    evaluation_fingerprint spin_platform lucky
    ≢ evaluation_fingerprint spin_platform (evaluate_call (codes "other"))
unfolding request_fingerprint get ◌==ˢ◌ hex hex_digit to_bytes int_from_bytes from_big_endian
prints_differ same =
    let equal =
      ==ˢ_complete (evaluation_fingerprint spin_platform lucky)
        (evaluation_fingerprint spin_platform (evaluate_call (codes "other"))) same in
    cc

evaluate_fairness_conflict_example :
    evaluate_fairness spin_platform
      (evaluate_call (codes "other"))
      (evaluate_fairness spin_platform lucky pending).durable
    ≡ rolled_back idempotency_conflict (evaluate_fairness spin_platform lucky pending).durable
evaluate_fairness_conflict_example =
    evaluate_fairness_conflict spin_platform lucky (evaluate_call (codes "other")) pending
      {r = spin_answer} evaluate_run refl refl prints_differ

no_proof : lock_fairness_proof_by_session 4 spinning ≡ none
unfolding lock_fairness_proof_by_session
no_proof = refl

fair_round-IsVerified_example :
    IsVerified spin_platform 5 1 (evaluate_fairness spin_platform lucky pending).durable
fair_round-IsVerified_example =
    fair_round-IsVerified spin_platform (commit_call 11) lucky spinning {p = spin_proof}
      {r = spin_answer} (to_bytes-IsByte 32 7) refl no_proof commit_run refl refl evaluate_run

abbrev first_event : FairnessProofEvent
first_event = event_of spin_platform (commit_facts spin_proof 3000)

verify_fairness_event_chain_iff_example :
    ((verify_fairness_event_chain spin_platform spin_proof (first_event ∷ [])).is_verified ≡ true)
    ↔ (IsChain spin_platform 0 none (first_event ∷ []) × IsSnapshot spin_proof first_event [])
verify_fairness_event_chain_iff_example =
    verify_fairness_event_chain_iff spin_platform spin_proof (first_event ∷ [])
