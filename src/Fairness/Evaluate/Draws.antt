-- ===== src/Fairness/Evaluate/Draws.antt =====
-- The draw of `evaluate_fairness` in app/services/fairness.py: what it was made of.
use python_rng_game_platform.Base.{
  ◌≡◌, ap, Option, none, some, ok, err, Result, >>=-eq-ok, ok_inj, List, ◌>>=◌,
}
use mathlib.Core.Path.{subst}
use python_rng_game_platform.Rng.Types.{FairnessError, RewardBand, DailySpinDerivation}
use python_rng_game_platform.Rng.Derive.{derive_daily_spin}
use python_rng_game_platform.Models.Errors.{Error}
use python_rng_game_platform.Models.Rows.{
  Game, GameConfigVersion, FairnessProof, FairnessSeedCustody,
}
use python_rng_game_platform.Store.{Db, get_game_by_id, get_config_by_id}
use python_rng_game_platform.Store.Fairness.{get_fairness_seed_custody}
use python_rng_game_platform.Platform.{Platform}
use python_rng_game_platform.Fairness.{reward_bands_for}
use python_rng_game_platform.Fairness.Evaluate.{
  EvaluateCall, Drawn, Material, material_of, caught_draw, draw_of, draw,
}

caught_draw-inv :
    (x : Result FairnessError (Option DailySpinDerivation)) {d : DailySpinDerivation}
    → caught_draw x ≡ ok d
    → x ≡ ok (some d)
caught_draw-inv (ok none) e = cc
caught_draw-inv (ok (some d)) e = ap (λ v. ok (some v)) (ok_inj e)
caught_draw-inv (err FairnessError.assertion) e = cc
caught_draw-inv (err FairnessError.invalid_fairness_input) e = cc
caught_draw-inv (err FairnessError.unsupported_fairness_version) e = cc
caught_draw-inv (err FairnessError.invalid_fairness_seed) e = cc
caught_draw-inv (err FairnessError.invalid_fairness_nonce) e = cc
caught_draw-inv (err FairnessError.invalid_reward_mapping) e = cc
caught_draw-inv (err FairnessError.type_error) e = cc

material_of-inv :
    (g : Option Game) (c : Option GameConfigVersion) (k : Option FairnessSeedCustody) {m : Material}
    → material_of g c k ≡ ok m
    → (g ≡ some m.game) × (c ≡ some m.config) × (k ≡ some m.custody)
material_of-inv none c k e = cc
material_of-inv (some g) none k e = cc
material_of-inv (some g) (some c) none e = cc
material_of-inv (some g) (some c) (some k) {m} e =
    let same = ok_inj e in
    (
      ap (λ (x : Material). some x.game) same,
      ap (λ (x : Material). some x.config) same,
      ap (λ (x : Material). some x.custody) same,
    )

-- What a draw was made of.
abbrev pub IsDrawn : Platform → EvaluateCall → FairnessProof → Drawn → Db → Type 0
IsDrawn platform call p drawn db =
    let m = drawn.material in
    (get_game_by_id p.game_id db ≡ some m.game)
    × (get_config_by_id p.config_version_id db ≡ some m.config)
    × (get_fairness_seed_custody p.id db ≡ some m.custody)
    × (bands : List RewardBand) × (reward_bands_for m.game.key m.config ≡ ok bands)
    × (derive_daily_spin platform.crypto platform.fuel (draw_of p m call.client_seed bands)
        ≡ ok (some drawn.derivation))

pub draw-IsDrawn :
    (platform : Platform) (call : EvaluateCall) (p : FairnessProof) (db : Db) {drawn : Drawn}
    → draw platform call p db ≡ ok drawn
    → IsDrawn platform call p drawn db
unfolding draw
draw-IsDrawn platform call p db {drawn} e =
    let derive = λ (m : Material) (bands : List RewardBand).
      caught_draw
        (derive_daily_spin platform.crypto platform.fuel (draw_of p m call.client_seed bands)) in
    let made : Material → DailySpinDerivation → Result Error Drawn =
      λ m d. ok (record { material = m; derivation = d }) in
    let (m, em, e1) =
      >>=-eq-ok
        (material_of (get_game_by_id p.game_id db) (get_config_by_id p.config_version_id db)
          (get_fairness_seed_custody p.id db))
        (λ m. reward_bands_for m.game.key m.config >>= λ bands. derive m bands >>= made m) e in
    let (bands, eb, e2) =
      >>=-eq-ok (reward_bands_for m.game.key m.config) (λ bands. derive m bands >>= made m) e1 in
    let (d, ed, e3) = >>=-eq-ok (derive m bands) (made m) e2 in
    let same : record { material = m; derivation = d } ≡ drawn = ok_inj e3 in
    let (eg, ec, ek) =
      material_of-inv (get_game_by_id p.game_id db) (get_config_by_id p.config_version_id db)
        (get_fairness_seed_custody p.id db) {m = m} em in
    let found : IsDrawn platform call p (record { material = m; derivation = d }) db = (
      eg,
      ec,
      ek,
      bands,
      eb,
      caught_draw-inv
          (derive_daily_spin platform.crypto platform.fuel (draw_of p m call.client_seed bands)) ed,
    ) in
    subst (λ (x : Drawn). IsDrawn platform call p x db) same found
