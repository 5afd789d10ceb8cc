-- ===== src/FairnessEvents/Payloads.antt =====
-- app/fairness_events.py: the payloads of a proof's events equal themselves, key by key.
use python_rng_game_platform.Base.{◌≡◌, refl, true, ◌==ˢ◌, ==ˢ_refl}
use python_rng_game_platform.Models.Equality.{
  json_eq, fields_in, fields_eq, json_eq-text, json_eq-number, json_eq-optional_text,
  json_eq-optional_number, json_eq-optional_instant,
}
use python_rng_game_platform.Models.Rows.{FairnessProof}
use python_rng_game_platform.Store.Evidence.{optional_uuid}
use python_rng_game_platform.Base.{ℕ, Option, none, some}
use python_rng_game_platform.FairnessEvents.{commit_event_payload, revealed_event_payload}

json_eq-optional_uuid : (o : Option ℕ) → json_eq (optional_uuid o) (optional_uuid o) ≡ true
unfolding json_eq
json_eq-optional_uuid none = refl
json_eq-optional_uuid (some id) = ==ˢ_refl _

ruleset json_self = (
  json_eq-text, json_eq-number, json_eq-optional_text, json_eq-optional_number,
  json_eq-optional_instant, json_eq-optional_uuid,
)

pub commit_payload_self :
    (p : FairnessProof) → fields_eq (commit_event_payload p) (commit_event_payload p) ≡ true
unfolding commit_event_payload fields_in ◌==ˢ◌
commit_payload_self p = simp json_self

pub revealed_payload_self :
    (p : FairnessProof) → fields_eq (revealed_event_payload p) (revealed_event_payload p) ≡ true
unfolding revealed_event_payload fields_in ◌==ˢ◌
revealed_payload_self p = simp json_self
