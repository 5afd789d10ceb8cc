-- ===== src/Leaderboards/Paging.antt =====
-- The pages, ranks and best rows that app/persistence/leaderboards.py reads.
use mathlib.Core.List.{Perm}
use python_rng_game_platform.Base.{
  ℕ, suc, ◌≡◌, refl, ap, ◌∙◌, Bool, List, [], ◌∷◌, none, some, arith, select, get_elem?, take,
}
use python_rng_game_platform.Models.Rows.{FinalScore}
use python_rng_game_platform.Store.{Db}
use python_rng_game_platform.Store.Leaderboards.{
  ahead, by_rank, Cursor, is_behind, behind, period_scores, list_canonical_scores, in_period,
}
use python_rng_game_platform.Leaderboards.Order.{
  Distinct, IsRanked, by_rank-IsRanked, by_rank-perm, Distinct-select, by_rank-select, select-ahead,
}

abbrev pub cursor_of : FinalScore → Cursor
cursor_of s = record {
  final_score = s.final_score;
  completed_at = s.completed_at;
  session_id = s.session_id;
}

is_behind-ahead : (c s : FinalScore) → is_behind (cursor_of c) s ≡ ahead c s
unfolding is_behind ahead
is_behind-ahead c s = ground arith

select-ext :
    {A : Type 0} (p q : A → Bool) (xs : List A) → ((x : A) → p x ≡ q x) → select p xs ≡ select q xs
select-ext p q [] h = refl
select-ext p q (x ∷ xs) h = rw (h x, select-ext p q xs h) refl

-- The whole board of a game period.
abbrev pub board : ℕ → ℕ → Db → List FinalScore
board game_id period_start db = list_canonical_scores game_id period_start none 0 none db

-- The board of a game period holds exactly the period's scores, and each is ahead of all behind it: a
-- higher score, or the same score completed earlier, or both the same and the lesser session.
pub list_canonical_scores-IsRanked :
    (game_id period_start : ℕ) (db : Db)
    → Distinct db.scores
    → IsRanked (board game_id period_start db)
      × Perm (board game_id period_start db) (select (in_period game_id period_start) db.scores)
unfolding list_canonical_scores period_scores behind
list_canonical_scores-IsRanked game_id period_start db h =
    let rows = select (in_period game_id period_start) db.scores in
    (
      by_rank-IsRanked rows (Distinct-select (in_period game_id period_start) db.scores h),
      by_rank-perm rows,
    )

-- The page behind the cursor of the entry at place `k` is the page at offset `k + 1`: a reader who passes
-- on the last entry that it saw neither misses nor repeats one.
pub list_canonical_scores-cursor :
    (game_id period_start limit k : ℕ) (db : Db) {c : FinalScore}
    → Distinct db.scores
    → get_elem? (board game_id period_start db) k ≡ some c
    → list_canonical_scores game_id period_start (some limit) 0 (some (cursor_of c)) db
      ≡ list_canonical_scores game_id period_start (some limit) (suc k) none db
unfolding list_canonical_scores period_scores behind
list_canonical_scores-cursor game_id period_start limit k db {c} h e =
    let rows = select (in_period game_id period_start) db.scores in
    let apart = Distinct-select (in_period game_id period_start) db.scores h in
    ap (take limit) (
      ap by_rank (select-ext (is_behind (cursor_of c)) (ahead c) rows (is_behind-ahead c))
      ∙ by_rank-select (ahead c) rows apart
      ∙ select-ahead (by_rank rows) k {c = c} (by_rank-IsRanked rows apart) e)
