-- ===== src/Rng/Encoding/Laws.antt =====
-- The renderings lose nothing: decimal numbers, hexadecimal bytes and UUIDs can be read back.
use python_rng_game_platform.Base.{
  ℕ, zero, suc, ◌+◌, ◌-◌, ◌*◌, ◌/◌, ◌%◌, ◌^◌, ◌≤◌, ◌<◌, ◌≡◌, refl, sym, ap, ◌∙◌, true, [], ◌∷◌,
  ◌++◌, inl, inr, arith, ltb, Bool-cases, Bytes, Text, length, length-append, All, All-append,
  Lacks, append_inj, tail_eq, take, drop, take-append-drop, length-take, length-drop,
}
use native.Mathlib.Nat.{pow-suc}
use mathlib.Core.Path.{ap₂}
use python_rng_game_platform.Rng.Encoding.{
  decimal_rounds, decimal, hex_digit, hex, is_hex_digit, hex_value, from_hex, from_big_endian,
  int_from_bytes, to_bytes, group, dashed, uuid_str,
}

abbrev pub IsDigit : ℕ → Type 0
IsDigit c = (b'0' ≤ c) × (c ≤ b'9')

-- The number that digits spell behind `n`.
spelled : ℕ → Text → ℕ
spelled n [] = n
spelled n (c ∷ s) = spelled (n * 10 + (c - b'0')) s

spelled-append :
    (n : ℕ) (s : Text) (c : ℕ) → spelled n (s ++ c ∷ []) ≡ spelled n s * 10 + (c - b'0')
unfolding spelled
spelled-append n [] c = refl
spelled-append n (d ∷ s) c = spelled-append (n * 10 + (d - b'0')) s c

spelled-decimal_rounds : (f n : ℕ) → n < f → spelled 0 (decimal_rounds f n) ≡ n
unfolding decimal_rounds
spelled-decimal_rounds zero n h = elim h [ ]
spelled-decimal_rounds (suc f) n h = elim (Bool-cases (ltb n 10)) [
  | inl e ↦ rw e (unfold spelled in ground arith)
  | inr e ↦
      rw
        (
          e,
          spelled-append 0 (decimal_rounds f (n / 10)) (b'0' + n % 10),
          spelled-decimal_rounds f (n / 10) (ground arith),
        )
        (omega arith)
]

-- Decimal numbers are told apart.
pub decimal_inj : (m n : ℕ) → decimal m ≡ decimal n → m ≡ n
unfolding decimal
decimal_inj m n e =
    sym (spelled-decimal_rounds (suc m) m (omega arith))
    ∙ ap (spelled 0) e
    ∙ spelled-decimal_rounds (suc n) n (omega arith)

decimal_rounds-IsDigit : (f n : ℕ) → All IsDigit (decimal_rounds f n)
unfolding decimal_rounds
decimal_rounds-IsDigit zero n = tt
decimal_rounds-IsDigit (suc f) n = elim (Bool-cases (ltb n 10)) [
  | inl e ↦ rw e (ground arith)
  | inr e ↦ rw e (
      All-append IsDigit (decimal_rounds f (n / 10)) ((b'0' + n % 10) ∷ [])
        (decimal_rounds-IsDigit f (n / 10)) (omega arith))
]

digits-Lacks : (sep : ℕ) (s : Text) → ¬ IsDigit sep → All IsDigit s → Lacks sep s
digits-Lacks sep [] h d = tt
digits-Lacks sep (c ∷ s) h d = (λ e. h (omega arith), digits-Lacks sep s h d.1)

-- A decimal number holds no separator that is no digit.
pub decimal-Lacks : (sep n : ℕ) → ¬ IsDigit sep → Lacks sep (decimal n)
unfolding decimal
decimal-Lacks sep n h = digits-Lacks sep _ h (decimal_rounds-IsDigit (suc n) n)

abbrev pub IsByte : ℕ → Type 0
IsByte b = b < 256

hex_value-hex_digit : (d : ℕ) → d < 16 → hex_value (hex_digit d) ≡ d
unfolding hex_value hex_digit
hex_value-hex_digit d h = ground arith

-- Reading the hexadecimal text of some bytes gives the bytes back.
pub from_hex-hex : (bs : Bytes) → All IsByte bs → from_hex (hex bs) ≡ bs
unfolding from_hex hex
from_hex-hex [] h = refl
from_hex-hex (b ∷ bs) h =
    rw
      (
        hex_value-hex_digit (b / 16) (omega arith),
        hex_value-hex_digit (b % 16) (omega arith),
        from_hex-hex bs h.1,
      )
      (ap (λ (x : ℕ). x ∷ bs) (omega arith))

pub hex_inj : (cs bs : Bytes) → All IsByte cs → All IsByte bs → hex cs ≡ hex bs → cs ≡ bs
hex_inj cs bs ha hb e = sym (from_hex-hex cs ha) ∙ ap from_hex e ∙ from_hex-hex bs hb

pub length-hex : (bs : Bytes) → length (hex bs) ≡ 2 * length bs
unfolding hex
length-hex [] = omega arith
length-hex (b ∷ bs) = omega (arith, length-hex bs)

is_hex_digit-hex_digit : (d : ℕ) → d < 16 → is_hex_digit (hex_digit d) ≡ true
unfolding is_hex_digit hex_digit
is_hex_digit-hex_digit d h = ground arith

abbrev pub IsHexDigit : ℕ → Type 0
IsHexDigit c = is_hex_digit c ≡ true

pub hex-IsHexDigit : (bs : Bytes) → All IsByte bs → All IsHexDigit (hex bs)
unfolding hex
hex-IsHexDigit [] h = tt
hex-IsHexDigit (b ∷ bs) h = (
  is_hex_digit-hex_digit (b / 16) (omega arith),
  (is_hex_digit-hex_digit (b % 16) (omega arith), hex-IsHexDigit bs h.1),
)

pub length-to_bytes : (w n : ℕ) → length (to_bytes w n) ≡ w
unfolding to_bytes
length-to_bytes zero n = refl
length-to_bytes (suc w) n =
    omega
      (arith, length-append (to_bytes w (n / 256)) ((n % 256) ∷ []), length-to_bytes w (n / 256))

pub to_bytes-IsByte : (w n : ℕ) → All IsByte (to_bytes w n)
unfolding to_bytes
to_bytes-IsByte zero n = tt
to_bytes-IsByte (suc w) n =
    All-append IsByte (to_bytes w (n / 256)) ((n % 256) ∷ []) (to_bytes-IsByte w (n / 256))
      (omega arith)

from_big_endian-append :
    (acc : ℕ) (bs : Bytes) (b : ℕ)
    → from_big_endian acc (bs ++ b ∷ []) ≡ from_big_endian acc bs * 256 + b
unfolding from_big_endian
from_big_endian-append acc [] b = refl
from_big_endian-append acc (c ∷ bs) b = from_big_endian-append (acc * 256 + c) bs b

div_below : (w n : ℕ) → n < 256 ^ suc w → n / 256 < 256 ^ w
div_below w n h = let e : 256 ^ suc w ≡ 256 ^ w * 256 = pow-suc 256 w in omega arith

-- A number below 256 ^ w is what its w bytes spell.
pub int_from_bytes-to_bytes : (w n : ℕ) → n < 256 ^ w → int_from_bytes (to_bytes w n) ≡ n
unfolding int_from_bytes to_bytes from_big_endian
int_from_bytes-to_bytes zero n h = omega arith
int_from_bytes-to_bytes (suc w) n h =
    rw
      (
        from_big_endian-append 0 (to_bytes w (n / 256)) (n % 256),
        int_from_bytes-to_bytes w (n / 256) (div_below w n h),
      )
      (omega arith)

-- `f` tells texts of one length apart.
abbrev TellsApart : (Text → Text) → Type 0
TellsApart f = (g h : Text) → length g ≡ length h → f g ≡ f h → g ≡ h

group-TellsApart : (n : ℕ) (f : Text → Text) → TellsApart f → TellsApart (group n f)
unfolding group
group-TellsApart n f inj g h l e =
    let cut =
      append_inj (take n g) (take n h) (omega (arith, length-take n g, length-take n h)) e in
    let tails =
      inj (drop n g) (drop n h) (omega (arith, length-drop n g, length-drop n h)) (tail_eq cut.1) in
    sym (take-append-drop n g) ∙ ap₂ ◌++◌ cut.0 tails ∙ take-append-drop n h

dashed-TellsApart : TellsApart dashed
unfolding dashed
dashed-TellsApart =
    group-TellsApart 8 _
      (group-TellsApart 4 _ (group-TellsApart 4 _ (group-TellsApart 4 (λ h. h) (λ g h l e. e))))

length-hex-to_bytes : (w u : ℕ) → length (hex (to_bytes w u)) ≡ 2 * w
length-hex-to_bytes w u = omega (arith, length-hex (to_bytes w u), length-to_bytes w u)

-- UUIDs are told apart by their texts.
pub uuid_str_inj : (u v : ℕ) → u < 256 ^ 16 → v < 256 ^ 16 → uuid_str u ≡ uuid_str v → u ≡ v
unfolding uuid_str
uuid_str_inj u v hu hv e =
    sym (int_from_bytes-to_bytes 16 u hu)
    ∙ ap int_from_bytes (
        hex_inj (to_bytes 16 u) (to_bytes 16 v) (to_bytes-IsByte 16 u) (to_bytes-IsByte 16 v)
          (dashed-TellsApart _ _ (length-hex-to_bytes 16 u ∙ sym (length-hex-to_bytes 16 v)) e))
    ∙ int_from_bytes-to_bytes 16 v hv

pub length-uuid_str : (u : ℕ) → length (uuid_str u) ≡ 36
unfolding uuid_str
length-uuid_str u = omega (
  arith,
  length-append {0} {A = ℕ},
  length-take {0} {A = ℕ},
  length-drop {0} {A = ℕ},
  length-hex-to_bytes 16 u,
)
