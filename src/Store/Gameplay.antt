-- ===== src/Store/Gameplay.antt =====
-- The reads of app/persistence/gameplay.py and of the proof of a session in fairness.py.
use python_rng_game_platform.Base.{
  ℕ, Bool, ◌&&◌, ◌||◌, List, [], ◌∷◌, Option, ltb, ◌==◌, ◌==ˢ◌, if◌then◌else◌, codes, find?, select,
  take, drop,
}
use python_rng_game_platform.Models.Rows.{Reward, AuditRecord, FairnessProof}
use python_rng_game_platform.Store.{Db, find_reward_of, get_outcome_by_session}

-- `get_reward_by_session`, whose join has one row, since both keys are unique.
unfoldable pub get_reward_by_session : ℕ → Db → Option Reward
get_reward_by_session session_id db =
    find_reward_of (get_outcome_by_session session_id db) db.rewards

unfoldable pub get_fairness_proof_by_session : ℕ → Db → Option FairnessProof
get_fairness_proof_by_session session_id db = find? (λ p. p.session_id == session_id) db.proofs

-- ORDER BY created_at DESC, id DESC
abbrev pub newer : Reward → Reward → Bool
newer a b = ltb b.created_at a.created_at || a.created_at == b.created_at && ltb b.id a.id

unfoldable pub insert_reward : Reward → List Reward → List Reward
insert_reward r [] = r ∷ []
insert_reward r (x ∷ xs) =
    let rest = insert_reward r xs in if newer x r then x ∷ rest else r ∷ x ∷ xs

unfoldable pub newest_first : List Reward → List Reward
unfolding insert_reward
newest_first [] = []
newest_first (r ∷ rs) = insert_reward r (newest_first rs)

unfoldable pub list_player_rewards : ℕ → ℕ → ℕ → Db → List Reward
unfolding newest_first
list_player_rewards player_id limit offset db =
    take limit (drop offset (newest_first (select (λ r. r.player_id == player_id) db.rewards)))

unfoldable pub get_outcome_audit : ℕ → Db → Option AuditRecord
get_outcome_audit outcome_id db =
    find?
      (λ a.
        a.entity_type ==ˢ codes "outcome"
        && a.entity_id == outcome_id
        && a.event_type ==ˢ codes "outcome_accepted")
      db.audits
