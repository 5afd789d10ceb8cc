-- ===== src/Leaderboards/Best.antt =====
-- Ranks and best rows of app/persistence/leaderboards.py.
use mathlib.Core.Path.{subst}
use python_rng_game_platform.Base.{
  ℕ, suc, ◌+◌, ◌≡◌, ◌≢◌, refl, sym, ◌∙◌, inl, inr, Bool, true, false, Bool-cases, List, [], ◌∷◌,
  some, arith, All, select, any, get_elem?, ◌==◌, ==_iff, some_inj, ◌&&◌, ◌||◌,
}
use python_rng_game_platform.Models.Rows.{FinalScore}
use python_rng_game_platform.Store.{Db}
use python_rng_game_platform.Store.Leaderboards.{
  ahead, by_rank, period_scores, is_best, list_settlement_scores, Ranked, first_of,
  player_canonical_rank, in_period, list_canonical_scores, behind, insert_score,
}
use python_rng_game_platform.Leaderboards.Order.{
  Distinct, IsRanked, ahead_irrefl, ahead_asymm, ahead_total, All-mono, All-select, All-by_rank,
  by_rank-IsRanked, Distinct-select, All-insert_score,
}
use python_rng_game_platform.Leaderboards.Paging.{board}

true-false : true ≢ false
true-false e = cc

either-second : (a b : Bool) → (a || b) ≡ false → b ≡ false
either-second a b e = ground arith

-- A rank, counted from `start`: the score stands at its place, it is the player's, and whatever else
-- of the player's the ranking holds stands behind it.
abbrev pub IsFirst : ℕ → ℕ → List FinalScore → Ranked → Type 0
IsFirst player_id start ss r =
    (i : ℕ) × (r.rank ≡ start + i)
    × (get_elem? ss i ≡ some r.score)
    × ((r.score.player_id == player_id) ≡ true)
    × All (λ s. (s.player_id == player_id) ≡ true → ahead s r.score ≡ false) ss

first_of-IsFirst :
    (player_id start : ℕ) (ss : List FinalScore) {r : Ranked}
    → IsRanked ss
    → first_of player_id start ss ≡ some r
    → IsFirst player_id start ss r
unfolding first_of
first_of-IsFirst player_id start [] ranked e = cc
first_of-IsFirst player_id start (s ∷ ss) {r} (below, ranked) e =
    elim (Bool-cases (s.player_id == player_id)) [
      | inl own ↦
          let same : record { score = s; rank = start } ≡ r = some_inj (rw (own, first_of) at e) in
          let here : IsFirst player_id start (s ∷ ss) (record { score = s; rank = start }) = (
            0,
            omega arith,
            refl,
            own,
            (λ _. ahead_irrefl s, All-mono (λ y h _. ahead_asymm s y h) ss below),
          ) in
          subst (IsFirst player_id start (s ∷ ss)) same here
      | inr other ↦
          let (i, placed, found, mine, best) =
            first_of-IsFirst player_id (suc start) ss {r = r} ranked (rw (other, first_of) at e) in
          (suc i, omega arith, found, mine, (λ own. absurd (ground arith), best))
    ]

-- The rank of a player in a game period counts from one, and it is the place on the board of the player's
-- score that none of the player's scores of the period is ahead of.
pub player_canonical_rank-IsFirst :
    (player_id game_id period_start : ℕ) (db : Db) {r : Ranked}
    → Distinct db.scores
    → player_canonical_rank player_id game_id period_start db ≡ some r
    → IsFirst player_id 1 (board game_id period_start db) r
unfolding player_canonical_rank period_scores list_canonical_scores behind
player_canonical_rank-IsFirst player_id game_id period_start db {r} h e =
    let rows = select (in_period game_id period_start) db.scores in
    first_of-IsFirst player_id 1 (by_rank rows) {r = r}
      (by_rank-IsRanked rows (Distinct-select (in_period game_id period_start) db.scores h)) e

-- No two rows have the same player.
abbrev pub DistinctPlayers : List FinalScore → Type 0
DistinctPlayers [] = Unit
DistinctPlayers (s ∷ ss) = All (λ x. x.player_id ≢ s.player_id) ss × DistinctPlayers ss

-- No row of the same player is ahead of a best row.
best-All :
    (rows : List FinalScore) (t : FinalScore)
    → any (λ s. s.player_id == t.player_id && ahead s t) rows ≡ false
    → All (λ s. s.player_id ≡ t.player_id → ahead s t ≡ false) rows
best-All [] t e = tt
best-All (s ∷ ss) t e = (
  λ same. elim (Bool-cases (ahead s t)) [
    | inl over ↦
        let same_id : (s.player_id == t.player_id) ≡ true =
          (==_iff s.player_id t.player_id).1 same in
        absurd (ground arith)
    | inr under ↦ under
  ],
  best-All ss t (
      either-second (s.player_id == t.player_id && ahead s t)
        (any (λ x. x.player_id == t.player_id && ahead x t) ss) e),
)

select-bests :
    (rows ss : List FinalScore)
    → All
        (λ t. All (λ s. s.player_id ≡ t.player_id → ahead s t ≡ false) rows)
        (select (is_best rows) ss)
unfolding is_best
select-bests rows [] = tt
select-bests rows (t ∷ ts) =
    elim (Bool-cases (any (λ s. s.player_id == t.player_id && ahead s t) rows)) [
      | inl beaten ↦ rw (beaten, is_best) (select-bests rows ts)
      | inr unbeaten ↦ rw (unbeaten, is_best) (best-All rows t unbeaten, select-bests rows ts)
    ]

heads-apart :
    (s : FinalScore) (xs : List FinalScore)
    → All (λ x. x.session_id ≢ s.session_id) xs
    → All (λ x. x.player_id ≡ s.player_id → ahead x s ≡ false) xs
    → All (λ x. s.player_id ≡ x.player_id → ahead s x ≡ false) xs
    → All (λ x. x.player_id ≢ s.player_id) xs
heads-apart s [] ne below above = tt
heads-apart s (x ∷ xs) ne below above = (
  λ same. true-false (sym (ahead_total s x ne.0 (above.0 (sym same))) ∙ below.0 same),
  heads-apart s xs ne.1 below.1 above.1,
)

-- Rows of which none is ahead of another of the same player have different players.
players-apart :
    (ss : List FinalScore)
    → Distinct ss
    → All (λ t. All (λ s. s.player_id ≡ t.player_id → ahead s t ≡ false) ss) ss
    → DistinctPlayers ss
players-apart [] h b = tt
players-apart (s ∷ xs) (ne, h) (own, others) = (
  heads-apart s xs ne own.1 (
      All-mono (λ x (k : All (λ y. y.player_id ≡ x.player_id → ahead y x ≡ false) (s ∷ xs)). k.0) xs
        others),
  players-apart xs h (
      All-mono (λ x (k : All (λ y. y.player_id ≡ x.player_id → ahead y x ≡ false) (s ∷ xs)). k.1) xs
        others),
)

insert_score-DistinctPlayers :
    (s : FinalScore) (ss : List FinalScore)
    → All (λ x. x.player_id ≢ s.player_id) ss
    → DistinctPlayers ss
    → DistinctPlayers (insert_score s ss)
unfolding insert_score
insert_score-DistinctPlayers s [] ne h = (tt, tt)
insert_score-DistinctPlayers s (x ∷ xs) ne (apart, h) = elim (Bool-cases (ahead s x)) [
  | inl first ↦ rw (first, insert_score) (ne, (apart, h))
  | inr later ↦
      rw (later, insert_score)
        (
          All-insert_score (λ y. y.player_id ≢ x.player_id) s xs (λ e. ne.0 (sym e)) apart,
          insert_score-DistinctPlayers s xs ne.1 h,
        )
]

by_rank-DistinctPlayers : (ss : List FinalScore) → DistinctPlayers ss → DistinctPlayers (by_rank ss)
unfolding by_rank
by_rank-DistinctPlayers [] h = tt
by_rank-DistinctPlayers (s ∷ ss) (ne, h) =
    insert_score-DistinctPlayers s (by_rank ss) (All-by_rank (λ x. x.player_id ≢ s.player_id) ss ne)
      (by_rank-DistinctPlayers ss h)

-- The ranking of a settlement: every player stands in it at most once, each entry is ahead of all behind
-- it, and none of the period's scores of the same player is ahead of it.
pub list_settlement_scores-DistinctPlayers :
    (game_id period_start : ℕ) (db : Db)
    → Distinct db.scores
    → let board = list_settlement_scores game_id period_start db in
      let rows = select (in_period game_id period_start) db.scores in
      DistinctPlayers board
      × IsRanked board
      × All (λ t. All (λ s. s.player_id ≡ t.player_id → ahead s t ≡ false) rows) board
unfolding list_settlement_scores period_scores
list_settlement_scores-DistinctPlayers game_id period_start db h =
    let rows = select (in_period game_id period_start) db.scores in
    let bests = select (is_best rows) rows in
    let apart =
      Distinct-select (is_best rows) rows
        (Distinct-select (in_period game_id period_start) db.scores h) in
    let tops = select-bests rows rows in
    (
      by_rank-DistinctPlayers bests (
          players-apart bests apart (
            All-mono
              (λ t k.
                All-select (λ s. s.player_id ≡ t.player_id → ahead s t ≡ false) (is_best rows) rows
                  k)
              bests tops)),
      by_rank-IsRanked bests apart,
      All-by_rank (λ t. All (λ s. s.player_id ≡ t.player_id → ahead s t ≡ false) rows) bests tops,
    )
