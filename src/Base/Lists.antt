-- ===== src/Base/Lists.antt =====
-- Lists measured by native numbers, and lists that are cut at a separator or at a length.
use Prim.Native.Nat.{ℕ, zero, suc, ◌+◌, ◌-◌, min}
use mathlib.Core.Path.{◌≡◌, refl, ap}
use mathlib.Core.Logic.{◌≢◌}
use mathlib.Core.Bool.{Bool, true, false, ◌&&◌, ◌||◌}
use mathlib.Core.List.{List, [], ◌∷◌, ◌++◌}
use mathlib.Core.Option.{Option, none, some}
use native.Mathlib.Omega.{arith}
use python_rng_game_platform.Base.Tests.{if◌then◌else◌}

module _ {ℓ} {A : Type ℓ} where
  abbrev pub length : List A → ℕ
  length [] = 0
  length (x ∷ xs) = suc (length xs)

  abbrev pub get_elem? : List A → ℕ → Option A
  get_elem? [] i = none
  get_elem? (x ∷ xs) zero = some x
  get_elem? (x ∷ xs) (suc i) = get_elem? xs i

  abbrev pub take : ℕ → List A → List A
  take zero xs = []
  take (suc n) [] = []
  take (suc n) (x ∷ xs) = x ∷ take n xs

  abbrev pub drop : ℕ → List A → List A
  drop zero xs = xs
  drop (suc n) [] = []
  drop (suc n) (x ∷ xs) = drop n xs

  -- The first element that passes a test.
  abbrev pub find? : (A → Bool) → List A → Option A
  find? p [] = none
  find? p (x ∷ xs) = if p x then some x else find? p xs

  abbrev pub any : (A → Bool) → List A → Bool
  any p [] = false
  any p (x ∷ xs) = p x || any p xs

  abbrev pub all : (A → Bool) → List A → Bool
  all p [] = true
  all p (x ∷ xs) = p x && all p xs

  -- `where` of a query.
  abbrev pub select : (A → Bool) → List A → List A
  select p [] = []
  select p (x ∷ xs) = let rest = select p xs in if p x then x ∷ rest else rest

  abbrev pub All {κ} : (A → Type κ) → List A → Type κ
  All P [] = Unit
  All P (x ∷ xs) = P x × All P xs

  pub length-append : (xs ys : List A) → length (xs ++ ys) ≡ length xs + length ys
  length-append [] ys = omega arith
  length-append (x ∷ xs) ys = omega (arith, length-append xs ys)

  pub All-append {κ} : (P : A → Type κ) (xs ys : List A) → All P xs → All P ys → All P (xs ++ ys)
  All-append P [] ys _ h = h
  All-append P (x ∷ xs) ys g h = (g.0, All-append P xs ys g.1 h)

  pub head_eq : {x y : A} {xs ys : List A} → x ∷ xs ≡ y ∷ ys → x ≡ y
  head_eq e = cc

  pub tail_eq : {x y : A} {xs ys : List A} → x ∷ xs ≡ y ∷ ys → xs ≡ ys
  tail_eq e = cc

  pub cons_eq : {x y : A} {xs ys : List A} → x ≡ y → xs ≡ ys → x ∷ xs ≡ y ∷ ys
  cons_eq p q = cc

  pub take-append-drop : (n : ℕ) (xs : List A) → take n xs ++ drop n xs ≡ xs
  take-append-drop zero xs = refl
  take-append-drop (suc n) [] = refl
  take-append-drop (suc n) (x ∷ xs) = ap (◌∷◌ x) (take-append-drop n xs)

  pub length-take : (n : ℕ) (xs : List A) → length (take n xs) ≡ min n (length xs)
  length-take zero xs = omega arith
  length-take (suc n) [] = omega arith
  length-take (suc n) (x ∷ xs) = omega (arith, length-take n xs)

  pub length-drop : (n : ℕ) (xs : List A) → length (drop n xs) ≡ length xs - n
  length-drop zero xs = omega arith
  length-drop (suc n) [] = omega arith
  length-drop (suc n) (x ∷ xs) = omega (arith, length-drop n xs)

  -- Two equal concatenations whose fronts are equally long agree part by part.
  pub append_inj :
      (xs ys : List A) {r s : List A}
      → length xs ≡ length ys
      → xs ++ r ≡ ys ++ s
      → (xs ≡ ys) × (r ≡ s)
  append_inj [] [] h e = (refl, e)
  append_inj [] (y ∷ ys) h e = absurd (omega arith)
  append_inj (x ∷ xs) [] h e = absurd (omega arith)
  append_inj (x ∷ xs) (y ∷ ys) h e =
      let tails = append_inj xs ys (omega arith) (tail_eq e) in
      (cons_eq (head_eq e) tails.0, tails.1)

  pub append_cancel_left : (xs : List A) {r s : List A} → xs ++ r ≡ xs ++ s → r ≡ s
  append_cancel_left xs e = (append_inj xs xs refl e).1

abbrev pub Lacks : ℕ → List ℕ → Type 0
Lacks b = All (λ c. c ≢ b)

-- What stands before the first separator, and what stands behind it, are determined.
pub split_inj :
    (sep : ℕ) (xs ys : List ℕ) {r s : List ℕ}
    → Lacks sep xs
    → Lacks sep ys
    → xs ++ sep ∷ r ≡ ys ++ sep ∷ s
    → (xs ≡ ys) × (r ≡ s)
split_inj sep [] [] h k e = (refl, cc)
split_inj sep [] (y ∷ ys) h k e = absurd (k.0 (cc))
split_inj sep (x ∷ xs) [] h k e = absurd (h.0 (cc))
split_inj sep (x ∷ xs) (y ∷ ys) h k e =
    let tails = split_inj sep xs ys h.1 k.1 (tail_eq e) in (cons_eq (head_eq e) tails.0, tails.1)
