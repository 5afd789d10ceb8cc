-- ===== src/Fairness/Chain/Laws.antt =====
-- What `verify_fairness_event_chain` of app/services/fairness.py accepts.
use python_rng_game_platform.Base.{
  ℕ, suc, ◌≡◌, ◌↔◌, refl, ap, ◌∙◌, inl, inr, true, Bool-cases, Option, Option-cases, none, some,
  List, [], ◌∷◌, ◌==◌, ==_iff, ◌==ˢ◌, ==ˢ-sound, ==ˢ_refl, Text, arith,
}
use python_rng_game_platform.Models.Equality.{fields_eq}
use python_rng_game_platform.Models.Rows.{FairnessProof, FairnessProofEvent}
use python_rng_game_platform.FairnessEvents.{commit_event_payload, revealed_event_payload}
use python_rng_game_platform.Platform.{Platform}
use python_rng_game_platform.Fairness.Evaluate.{is_revealed}
use python_rng_game_platform.Fairness.Chain.{
  expected_hash, same_hash, check_event, check_links, last_of, check_final, check_snapshot,
  verify_fairness_event_chain,
}

-- An event in its place: its number, the hash of the event before it, and its own hash.
abbrev pub IsLink : Platform → ℕ → Option Text → FairnessProofEvent → Type 0
IsLink platform sequence previous e =
    (e.sequence ≡ sequence)
    × (e.previous_evidence_hash ≡ previous)
    × (expected_hash platform e ≡ some e.evidence_hash)

abbrev pub IsChain : Platform → ℕ → Option Text → List FairnessProofEvent → Type 0
IsChain platform sequence previous [] = Unit
IsChain platform sequence previous (e ∷ es) =
    IsLink platform sequence previous e × IsChain platform (suc sequence) (some e.evidence_hash) es

-- The chain tells the proof's own columns: what was committed, and what was revealed.
abbrev pub IsSnapshot : FairnessProof → FairnessProofEvent → List FairnessProofEvent → Type 0
IsSnapshot p e es =
    (e.evidence_version ≡ 2 → fields_eq e.payload (commit_event_payload p) ≡ true)
    × (is_revealed p.status ≡ true → is_revealed (last_of e es).status ≡ true)
    × (is_revealed p.status ≡ true
        → (last_of e es).evidence_version ≡ 2
        → fields_eq (last_of e es).payload (revealed_event_payload p) ≡ true)

same_hash_sound : (a b : Option Text) → same_hash a b ≡ true → a ≡ b
same_hash_sound none none e = refl
same_hash_sound none (some b) e = cc
same_hash_sound (some a) none e = cc
same_hash_sound (some a) (some b) e = ap some (==ˢ-sound a b e)

same_hash_refl : (a : Option Text) → same_hash a a ≡ true
same_hash_refl none = refl
same_hash_refl (some a) = ==ˢ_refl a

pub check_event-IsLink :
    (platform : Platform) (sequence : ℕ) (previous : Option Text) (e : FairnessProofEvent)
    → check_event platform sequence previous e ≡ none
    → IsLink platform sequence previous e
unfolding check_event
check_event-IsLink platform sequence previous e passed =
    elim (Bool-cases (e.sequence == sequence)) [
      | inr other ↦ absurd (ground arith)
      | inl here ↦ elim (Bool-cases (same_hash e.previous_evidence_hash previous)) [
        | inr other ↦ absurd (ground arith)
        | inl linked ↦ elim (Option-cases (expected_hash platform e)) [
          | inl unknown ↦ absurd (ground arith)
          | inr (expected, known) ↦ elim (Bool-cases (expected ==ˢ e.evidence_hash)) [
            | inr forged ↦ absurd (ground arith)
            | inl genuine ↦ (
              (==_iff e.sequence sequence).0 here,
              same_hash_sound e.previous_evidence_hash previous linked,
              known ∙ ap some (==ˢ-sound expected e.evidence_hash genuine),
            )
          ]
        ]
      ]
    ]

pub check_event_passes :
    (platform : Platform) (sequence : ℕ) (previous : Option Text) (e : FairnessProofEvent)
    → IsLink platform sequence previous e
    → check_event platform sequence previous e ≡ none
unfolding check_event
check_event_passes platform sequence previous e (here, linked, genuine) =
    let numbered : (e.sequence == sequence) ≡ true = (==_iff e.sequence sequence).1 here in
    let joined : same_hash e.previous_evidence_hash previous ≡ true =
      rw linked (same_hash_refl previous) in
    rw (numbered, joined, genuine, ==ˢ_refl e.evidence_hash, check_event) refl

pub check_links-IsChain :
    (platform : Platform) (sequence : ℕ) (previous : Option Text) (es : List FairnessProofEvent)
    → check_links platform sequence previous es ≡ none
    → IsChain platform sequence previous es
unfolding check_links
check_links-IsChain platform sequence previous [] passed = tt
check_links-IsChain platform sequence previous (e ∷ es) passed =
    elim (Option-cases (check_event platform sequence previous e)) [
      | inr (code, faulty) ↦ absurd (ground arith)
      | inl good ↦ (
        check_event-IsLink platform sequence previous e good,
        check_links-IsChain platform (suc sequence) (some e.evidence_hash) es
            (rw (good, check_links) at passed),
      )
    ]

pub check_links_passes :
    (platform : Platform) (sequence : ℕ) (previous : Option Text) (es : List FairnessProofEvent)
    → IsChain platform sequence previous es
    → check_links platform sequence previous es ≡ none
unfolding check_links
check_links_passes platform sequence previous [] chained = refl
check_links_passes platform sequence previous (e ∷ es) (link, chained) =
    rw (check_event_passes platform sequence previous e link, check_links)
      (check_links_passes platform (suc sequence) (some e.evidence_hash) es chained)

check_snapshot-IsSnapshot :
    (p : FairnessProof) (e : FairnessProofEvent) (es : List FairnessProofEvent)
    → (check_snapshot p e es).is_verified ≡ true
    → IsSnapshot p e es
unfolding check_snapshot check_final
check_snapshot-IsSnapshot p e es passed =
    (λ v. ground arith, λ r. ground arith, λ r v. ground arith)

check_snapshot_passes :
    (p : FairnessProof) (e : FairnessProofEvent) (es : List FairnessProofEvent)
    → IsSnapshot p e es
    → (check_snapshot p e es).is_verified ≡ true
unfolding check_snapshot check_final
check_snapshot_passes p e es (commits, ends, reveals) = ground arith

-- A chain that is verified against a proof: some events, linked from number 0, that tell its columns.
abbrev pub IsHistory : Platform → FairnessProof → List FairnessProofEvent → Type 0
IsHistory platform p [] = ⊥
IsHistory platform p (e ∷ es) = IsChain platform 0 none (e ∷ es) × IsSnapshot p e es

-- A list of events is verified against a proof exactly when it is not empty, every event has the number
-- of its place, the hash of the event before it and the hash of its own content under its evidence version
-- (1 or 2); a first event of version 2 carries the proof's commitment payload; and for a revealed proof the
-- last event says revealed and, in version 2, carries the proof's revealed payload.
pub verify_fairness_event_chain_iff :
    (platform : Platform) (p : FairnessProof) (events : List FairnessProofEvent)
    → ((verify_fairness_event_chain platform p events).is_verified ≡ true)
      ↔ IsHistory platform p events
unfolding verify_fairness_event_chain
verify_fairness_event_chain_iff platform p [] = (λ passed. cc, λ none_left. absurd none_left)
verify_fairness_event_chain_iff platform p (e ∷ es) = (
  λ passed. elim (Option-cases (check_links platform 0 none (e ∷ es))) [
    | inr (code, faulty) ↦ absurd (ground arith)
    | inl good ↦ (
      check_links-IsChain platform 0 none (e ∷ es) good,
      check_snapshot-IsSnapshot p e es (rw (good, verify_fairness_event_chain) at passed),
    )
  ],
  λ valid.
      rw (check_links_passes platform 0 none (e ∷ es) valid.0, verify_fairness_event_chain)
        (check_snapshot_passes p e es valid.1),
)
