-- ===== src/Leaderboards/Order.antt =====
-- The canonical order of scores in app/persistence/leaderboards.py.
use mathlib.Core.Path.{subst}
use python_rng_game_platform.Base.{
  ℕ, zero, suc, ◌≡◌, ◌≢◌, refl, sym, inl, inr, Bool, true, false, Bool-cases, List, [], ◌∷◌, some,
  arith, All, select, get_elem?, drop, some_inj,
}
use mathlib.Core.List.{Perm}
use mathlib.Core.List.Perm
use python_rng_game_platform.Models.Rows.{FinalScore}
use python_rng_game_platform.Store.Leaderboards.{ahead, insert_score, by_rank}

-- No two rows have the same session: the unique constraint of the score table.
abbrev pub Distinct : List FinalScore → Type 0
Distinct [] = Unit
Distinct (s ∷ ss) = All (λ x. x.session_id ≢ s.session_id) ss × Distinct ss

-- Every row is ahead of all the rows behind it.
abbrev pub IsRanked : List FinalScore → Type 0
IsRanked [] = Unit
IsRanked (s ∷ ss) = All (λ x. ahead s x ≡ true) ss × IsRanked ss

pub ahead_irrefl : (a : FinalScore) → ahead a a ≡ false
unfolding ahead
ahead_irrefl a = ground arith

pub ahead_asymm : (a b : FinalScore) → ahead a b ≡ true → ahead b a ≡ false
unfolding ahead
ahead_asymm a b h = ground arith

pub ahead_trans : (a b c : FinalScore) → ahead a b ≡ true → ahead b c ≡ true → ahead a c ≡ true
unfolding ahead
ahead_trans a b c h k = ground arith

-- Of two rows with different sessions one is ahead of the other.
pub ahead_total :
    (a b : FinalScore) → b.session_id ≢ a.session_id → ahead a b ≡ false → ahead b a ≡ true
unfolding ahead
ahead_total a b ne h = ground arith

module _ {A : Type 0} where
  pub All-mono : {P Q : A → Type 0} (f : (x : A) → P x → Q x) (xs : List A) → All P xs → All Q xs
  All-mono f [] h = tt
  All-mono f (x ∷ xs) h = (f x h.0, All-mono f xs h.1)

  pub All-select :
      (P : A → Type 0) (test : A → Bool) (xs : List A) → All P xs → All P (select test xs)
  All-select P test [] h = tt
  All-select P test (x ∷ xs) h = elim (Bool-cases (test x)) [
    | inl hit ↦ rw hit (h.0, All-select P test xs h.1)
    | inr miss ↦ rw miss (All-select P test xs h.1)
  ]

pub All-insert_score :
    (P : FinalScore → Type 0) (s : FinalScore) (ss : List FinalScore)
    → P s
    → All P ss
    → All P (insert_score s ss)
unfolding insert_score
All-insert_score P s [] p h = (p, tt)
All-insert_score P s (x ∷ xs) p h = elim (Bool-cases (ahead s x)) [
  | inl first ↦ rw (first, insert_score) (p, h)
  | inr later ↦ rw (later, insert_score) (h.0, All-insert_score P s xs p h.1)
]

pub All-by_rank : (P : FinalScore → Type 0) (ss : List FinalScore) → All P ss → All P (by_rank ss)
unfolding by_rank
All-by_rank P [] h = tt
All-by_rank P (s ∷ ss) h = All-insert_score P s (by_rank ss) h.0 (All-by_rank P ss h.1)

insert_score-IsRanked :
    (s : FinalScore) (ss : List FinalScore)
    → All (λ x. x.session_id ≢ s.session_id) ss
    → IsRanked ss
    → IsRanked (insert_score s ss)
unfolding insert_score
insert_score-IsRanked s [] ne h = (tt, tt)
insert_score-IsRanked s (x ∷ xs) ne (below, ranked) = elim (Bool-cases (ahead s x)) [
  | inl first ↦
      rw (first, insert_score)
        ((first, All-mono (λ y h. ahead_trans s x y first h) xs below), (below, ranked))
  | inr later ↦
      rw (later, insert_score)
        (
          All-insert_score (λ y. ahead x y ≡ true) s xs (ahead_total s x ne.0 later) below,
          insert_score-IsRanked s xs ne.1 ranked,
        )
]

pub by_rank-IsRanked : (ss : List FinalScore) → Distinct ss → IsRanked (by_rank ss)
unfolding by_rank
by_rank-IsRanked [] h = tt
by_rank-IsRanked (s ∷ ss) (ne, h) =
    insert_score-IsRanked s (by_rank ss) (All-by_rank (λ x. x.session_id ≢ s.session_id) ss ne)
      (by_rank-IsRanked ss h)

insert_score-perm : (s : FinalScore) (ss : List FinalScore) → Perm (insert_score s ss) (s ∷ ss)
unfolding insert_score
insert_score-perm s [] = Perm.rfl
insert_score-perm s (x ∷ xs) = elim (Bool-cases (ahead s x)) [
  | inl first ↦ rw (first, insert_score) Perm.rfl
  | inr later ↦
      rw (later, insert_score)
        (Perm.trans (Perm.cons x (insert_score-perm s xs)) (Perm.swap s x xs))
]

pub by_rank-perm : (ss : List FinalScore) → Perm (by_rank ss) ss
unfolding by_rank
by_rank-perm [] = Perm.rfl
by_rank-perm (s ∷ ss) =
    Perm.trans (insert_score-perm s (by_rank ss)) (Perm.cons s (by_rank-perm ss))

pub Distinct-select :
    (test : FinalScore → Bool) (ss : List FinalScore) → Distinct ss → Distinct (select test ss)
Distinct-select test [] h = tt
Distinct-select test (s ∷ ss) (ne, h) = elim (Bool-cases (test s)) [
  | inl hit ↦
      rw hit (All-select (λ x. x.session_id ≢ s.session_id) test ss ne, Distinct-select test ss h)
  | inr miss ↦ rw miss (Distinct-select test ss h)
]

insert_score-first :
    (s : FinalScore) (ss : List FinalScore)
    → All (λ x. ahead s x ≡ true) ss
    → insert_score s ss ≡ s ∷ ss
unfolding insert_score
insert_score-first s [] h = refl
insert_score-first s (x ∷ xs) h = rw (h.0, insert_score) refl

select-insert_score_out :
    (test : FinalScore → Bool) (s : FinalScore) (ss : List FinalScore)
    → test s ≡ false
    → select test (insert_score s ss) ≡ select test ss
unfolding insert_score
select-insert_score_out test s [] out = rw out refl
select-insert_score_out test s (x ∷ xs) out = elim (Bool-cases (ahead s x)) [
  | inl first ↦ rw (first, insert_score, out) refl
  | inr later ↦ rw (later, insert_score, select-insert_score_out test s xs out) refl
]

select-insert_score_in :
    (test : FinalScore → Bool) (s : FinalScore) (ss : List FinalScore)
    → IsRanked ss
    → test s ≡ true
    → select test (insert_score s ss) ≡ insert_score s (select test ss)
unfolding insert_score
select-insert_score_in test s [] ranked hit = rw hit refl
select-insert_score_in test s (x ∷ xs) (below, ranked) hit = elim (Bool-cases (ahead s x)) [
  | inl first ↦
      let all : All (λ y. ahead s y ≡ true) (x ∷ xs) =
        (first, All-mono (λ y h. ahead_trans s x y first h) xs below) in
      rw
        (insert_score-first s (select test (x ∷ xs))
          (All-select (λ y. ahead s y ≡ true) test (x ∷ xs) all))
        (rw (first, insert_score, hit) refl)
  | inr later ↦ elim (Bool-cases (test x)) [
    | inl kept ↦
        rw (later, insert_score, kept, select-insert_score_in test s xs ranked hit, later) refl
    | inr gone ↦ rw (later, insert_score, gone) (select-insert_score_in test s xs ranked hit)
  ]
]

-- Ordering the rows of a condition is the same as picking them from the ordered rows.
pub by_rank-select :
    (test : FinalScore → Bool) (ss : List FinalScore)
    → Distinct ss
    → by_rank (select test ss) ≡ select test (by_rank ss)
unfolding by_rank
by_rank-select test [] h = refl
by_rank-select test (s ∷ ss) (ne, h) = elim (Bool-cases (test s)) [
  | inl hit ↦
      rw (hit, by_rank, by_rank-select test ss h)
        (sym (select-insert_score_in test s (by_rank ss) (by_rank-IsRanked ss h) hit))
  | inr miss ↦
      rw (miss, by_rank-select test ss h) (sym (select-insert_score_out test s (by_rank ss) miss))
]

select-ahead_none :
    (c : FinalScore) (ss : List FinalScore)
    → All (λ x. ahead c x ≡ true) ss
    → select (ahead c) ss ≡ ss
select-ahead_none c [] h = refl
select-ahead_none c (x ∷ xs) h = rw (h.0, select-ahead_none c xs h.1) refl

get_elem-All :
    (P : FinalScore → Type 0) (ss : List FinalScore) (k : ℕ) {c : FinalScore}
    → All P ss
    → get_elem? ss k ≡ some c
    → P c
get_elem-All P [] k h e = cc
get_elem-All P (x ∷ xs) zero {c} h e = subst P (some_inj e) h.0
get_elem-All P (x ∷ xs) (suc k) {c} h e = get_elem-All P xs k {c = c} h.1 e

-- What the entry at place `k` of a ranking is ahead of is what stands behind it.
pub select-ahead :
    (ss : List FinalScore) (k : ℕ) {c : FinalScore}
    → IsRanked ss
    → get_elem? ss k ≡ some c
    → select (ahead c) ss ≡ drop (suc k) ss
select-ahead [] k h e = cc
select-ahead (x ∷ xs) zero {c} (below, ranked) e =
    let same : x ≡ c = some_inj e in
    subst (λ (y : FinalScore). select (ahead y) (x ∷ xs) ≡ xs) same
      (rw (ahead_irrefl x) (select-ahead_none x xs below))
select-ahead (x ∷ xs) (suc k) {c} (below, ranked) e =
    let over : ahead x c ≡ true = get_elem-All (λ y. ahead x y ≡ true) xs k {c = c} below e in
    rw (ahead_asymm x c over) (select-ahead xs k {c = c} ranked e)
