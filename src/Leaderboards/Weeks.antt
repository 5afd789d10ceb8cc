-- ===== src/Leaderboards/Weeks.antt =====
-- `leaderboard_period` of app/services/leaderboards.py is the week of an instant.
use python_rng_game_platform.Base.{
  ℕ, ◌+◌, ◌-◌, ◌*◌, ◌/◌, ◌%◌, ◌≤◌, ◌<◌, ◌≡◌, refl, sym, ap, ◌∙◌, arith,
}
use python_rng_game_platform.Leaderboards.{Period, day, week, weekday, midnight, leaderboard_period}

abbrev start_of : ℕ → ℕ
start_of t = midnight (t - weekday t * day)

abbrev period_from : ℕ → Period
period_from start = record { start = start; end = start + week }

week_of : (q u : ℕ) → q * week ≤ u → u < q * week + week → u / week ≡ q
week_of q u lo hi = omega arith

start_of-eq : (t : ℕ) → start_of t ≡ t / week * week
start_of-eq t = omega arith

same_week : (t u : ℕ) → start_of t ≤ u → u < start_of t + week → start_of u ≡ start_of t
same_week t u lo hi =
    let et = start_of-eq t in
    let eu = start_of-eq u in
    let same : u / week ≡ t / week = week_of (t / week) u (rw et at lo) (rw et at hi) in
    eu ∙ ap (λ q. q * week) same ∙ sym et

-- The period of an instant starts on a Monday at midnight and lasts seven days; it holds the instant, and
-- every instant that it holds has the same period.
pub leaderboard_period-holds :
    (t : ℕ)
    → let p = leaderboard_period t in
      (p.start % week ≡ 0)
      × (p.start ≤ t)
      × (t < p.end)
      × (p.end ≡ p.start + week)
      × ((u : ℕ) → p.start ≤ u → u < p.end → leaderboard_period u ≡ p)
unfolding leaderboard_period
leaderboard_period-holds t =
    (omega arith, omega arith, omega arith, refl, λ u lo hi. ap period_from (same_week t u lo hi))
