-- ===== src/Base/Tests.antt =====
-- Boolean tests on the native numbers, the conditional, and Python's text and bytes.
use Prim.Native.Nat.{ℕ, ◌≤◌, ◌<◌, compare, Ordering}
use Prim.Native.Char.{code}
use Prim.Native.String.{String}
use mathlib.Core.Path.{◌≡◌, refl}
use mathlib.Core.Logic.{◌↔◌, ◌⊎◌, inl, inr, ◌≢◌}
use mathlib.Core.Bool.{Bool, true, false, ◌&&◌}
use mathlib.Core.Option.{Option, none, some}
use mathlib.Core.List.{List, [], ◌∷◌}
use native.Mathlib.Omega.{arith}

abbrev pub ltb : ℕ → ℕ → Bool
ltb a b = elim (compare a b) [ Ordering.lt ↦ true | _ ↦ false ]

abbrev pub leb : ℕ → ℕ → Bool
leb a b = elim (compare a b) [ Ordering.gt ↦ false | _ ↦ true ]

infix 50 ◌==◌
abbrev pub ◌==◌ : ℕ → ℕ → Bool
a == b = elim (compare a b) [ Ordering.eq ↦ true | _ ↦ false ]

infix 1 if◌then◌else◌
abbrev pub if◌then◌else◌ {ℓ} : {A : Type ℓ} → Bool → A → A → A
if true then x else _ = x
if false then _ else y = y

pub ltb→lt : (a b : ℕ) → ltb a b ≡ true → a < b
ltb→lt a b h = ground arith

pub lt→ltb : (a b : ℕ) → a < b → ltb a b ≡ true
lt→ltb a b h = ground arith

pub le→ltb : (a b : ℕ) → a ≤ b → ltb b a ≡ false
le→ltb a b h = ground arith

pub ==_iff : (a b : ℕ) → ((a == b) ≡ true) ↔ (a ≡ b)
==_iff a b = ground arith

pub ==_refl : (a : ℕ) → (a == a) ≡ true
==_refl a = ground arith

pub Bool-cases : (b : Bool) → (b ≡ true) ⊎ (b ≡ false)
Bool-cases true = inl refl
Bool-cases false = inr refl

pub Option-cases {ℓ} : {A : Type ℓ} (o : Option A) → (o ≡ none) ⊎ ((a : A) × (o ≡ some a))
Option-cases none = inl refl
Option-cases (some a) = inr (a, refl)

abbrev pub is_some {ℓ} : {A : Type ℓ} → Option A → Bool
is_some none = false
is_some (some _) = true

-- `bytes`, each a number below 256.
abbrev pub Bytes : Type 0
Bytes = List ℕ

-- `str`, given by the bytes of its UTF-8 encoding.
abbrev pub Text : Type 0
Text = List ℕ

-- An ASCII literal.
abbrev pub codes : String → Text
codes String.[] = []
codes (String.◌∷◌ c s) = code c ∷ codes s

-- `==` of two texts, and `hmac.compare_digest`.
infix 50 ◌==ˢ◌
unfoldable pub ◌==ˢ◌ : Text → Text → Bool
[] ==ˢ [] = true
[] ==ˢ (y ∷ ys) = false
(x ∷ xs) ==ˢ [] = false
(x ∷ xs) ==ˢ (y ∷ ys) = x == y && (xs ==ˢ ys)

pub ==ˢ-sound : (s t : Text) → (s ==ˢ t) ≡ true → s ≡ t
unfolding ◌==ˢ◌
==ˢ-sound [] [] h = refl
==ˢ-sound [] (y ∷ ys) h = cc
==ˢ-sound (x ∷ xs) [] h = cc
==ˢ-sound (x ∷ xs) (y ∷ ys) h = ground (arith, ==ˢ-sound xs ys)

pub ==ˢ_refl : (s : Text) → (s ==ˢ s) ≡ true
unfolding ◌==ˢ◌
==ˢ_refl [] = refl
==ˢ_refl (x ∷ xs) = ground (arith, ==ˢ_refl xs)

pub ==ˢ_complete : (s t : Text) → s ≡ t → (s ==ˢ t) ≡ true
==ˢ_complete s t e = rw e (==ˢ_refl t)

pub ==ˢ_ne : (s t : Text) → s ≢ t → (s ==ˢ t) ≡ false
==ˢ_ne s t h = elim (Bool-cases (s ==ˢ t)) [ inl e ↦ absurd (h (==ˢ-sound s t e)) | inr e ↦ e ]
