-- ===== src/Store/Fairness.antt =====
-- app/persistence/fairness.py: the queries on fairness proofs, their seeds and their events.
use python_rng_game_platform.Base.{
  ℕ, ◌&&◌, ◌||◌, List, [], ◌∷◌, ◌++◌, Option, none, some, leb, ◌==◌, if◌then◌else◌, Bytes, find?,
  any, select, Result, ok, err, not,
}
use python_rng_game_platform.Models.Errors.{Error, integrity_error}
use python_rng_game_platform.Models.Rows.{FairnessProof, FairnessSeedCustody, FairnessProofEvent}
use python_rng_game_platform.Store.{Db, replace, same_key}

-- The primary key and the unique session and outcome of a proof.
unfoldable pub add_fairness_proof : FairnessProof → Db → Result Error Db
add_fairness_proof new db =
    if any
      (λ p.
        p.id == new.id || p.session_id == new.session_id || same_key p.outcome_id new.outcome_id)
      db.proofs
    then err integrity_error
    else ok (record db { proofs = db.proofs ++ new ∷ [] })

abbrev pub custody_of : ℕ → Bytes → FairnessSeedCustody
custody_of proof_id seed = record { proof_id = proof_id; server_seed_material = seed }

unfoldable pub add_fairness_seed_custody : ℕ → Bytes → Db → Result Error Db
add_fairness_seed_custody proof_id seed db =
    if any (λ c. c.proof_id == proof_id) db.custodies
    then err integrity_error
    else ok (record db { custodies = db.custodies ++ custody_of proof_id seed ∷ [] })

unfoldable pub get_fairness_seed_custody : ℕ → Db → Option FairnessSeedCustody
get_fairness_seed_custody proof_id db = find? (λ c. c.proof_id == proof_id) db.custodies

unfoldable pub lock_fairness_proof : ℕ → Db → Option FairnessProof
lock_fairness_proof proof_id db = find? (λ p. p.id == proof_id) db.proofs

-- The owner and the session of a proof.
pub record VisibleProof : Type 0 where
  pub player_id : ℕ
  pub session_id : ℕ

unfoldable pub get_fairness_proof : ℕ → Db → Option VisibleProof
get_fairness_proof proof_id db = elim (find? (λ p. p.id == proof_id) db.proofs) [
  | none ↦ none
  | some p ↦ some (record { player_id = p.player_id; session_id = p.session_id })
]

unfoldable pub get_fairness_proof_by_outcome : ℕ → Db → Option FairnessProof
get_fairness_proof_by_outcome outcome_id db =
    find? (λ p. same_key p.outcome_id (some outcome_id)) db.proofs

-- The flush of a changed proof, whose outcome must be no other proof's.
unfoldable pub update_fairness_proof : FairnessProof → Db → Result Error Db
update_fairness_proof p db =
    if any (λ q. not (q.id == p.id) && same_key q.outcome_id p.outcome_id) db.proofs
    then err integrity_error
    else ok (record db { proofs = replace (λ r. r.id) p db.proofs })

-- ORDER BY sequence
unfoldable pub insert_event : FairnessProofEvent → List FairnessProofEvent → List FairnessProofEvent
insert_event e [] = e ∷ []
insert_event e (x ∷ xs) =
    let rest = insert_event e xs in if leb e.sequence x.sequence then e ∷ x ∷ xs else x ∷ rest

unfoldable pub by_sequence : List FairnessProofEvent → List FairnessProofEvent
unfolding insert_event
by_sequence [] = []
by_sequence (e ∷ es) = insert_event e (by_sequence es)

unfoldable pub list_fairness_proof_events : ℕ → Db → List FairnessProofEvent
unfolding by_sequence
list_fairness_proof_events proof_id db =
    by_sequence (select (λ e. e.proof_id == proof_id) db.proof_events)
