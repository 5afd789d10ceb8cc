-- ===== src/Rng/Messages/Fields.antt =====
-- The fields of the byte formats of app/rng.py can be read back.
use python_rng_game_platform.Base.{
  ℕ, ◌^◌, ◌<◌, ◌≡◌, sym, ◌∙◌, ◌∷◌, ◌++◌, arith, Bytes, Text, length, tail_eq, append_inj,
  append_cancel_left, split_inj,
}
use python_rng_game_platform.Rng.Encoding.{decimal, uuid_str}
use python_rng_game_platform.Rng.Encoding.Laws.{
  IsDigit, decimal_inj, decimal-Lacks, uuid_str_inj, length-uuid_str,
}
use python_rng_game_platform.Rng.Messages.{newline, field, sized_field}

pub decimal-then :
    (sep m n : ℕ) {r s : Bytes}
    → ¬ IsDigit sep
    → decimal m ++ sep ∷ r ≡ decimal n ++ sep ∷ s
    → (m ≡ n) × (r ≡ s)
decimal-then sep m n h e =
    let cut =
      split_inj sep (decimal m) (decimal n) (decimal-Lacks sep m h) (decimal-Lacks sep n h) e in
    (decimal_inj m n cut.0, cut.1)

pub number_field :
    (label : Text) (m n : ℕ) {r s : Bytes}
    → field label (decimal m) r ≡ field label (decimal n) s
    → (m ≡ n) × (r ≡ s)
unfolding field
number_field label m n e = decimal-then newline m n (λ d. omega arith) (append_cancel_left label e)

-- Values of one length.
pub fixed_field :
    (label v w : Text) {r s : Bytes}
    → length v ≡ length w
    → field label v r ≡ field label w s
    → (v ≡ w) × (r ≡ s)
unfolding field
fixed_field label v w l e =
    let cut = append_inj v w l (append_cancel_left label e) in (cut.0, tail_eq cut.1)

pub uuid_field :
    (label : Text) (u v : ℕ) {r s : Bytes}
    → u < 256 ^ 16
    → v < 256 ^ 16
    → field label (uuid_str u) r ≡ field label (uuid_str v) s
    → (u ≡ v) × (r ≡ s)
uuid_field label u v hu hv e =
    let cut =
      fixed_field label (uuid_str u) (uuid_str v) (length-uuid_str u ∙ sym (length-uuid_str v)) e in
    (uuid_str_inj u v hu hv cut.0, cut.1)

pub sized_field_inj :
    (label v w : Text) {r s : Bytes}
    → sized_field label v r ≡ sized_field label w s
    → (v ≡ w) × (r ≡ s)
unfolding sized_field
sized_field_inj label v w e =
    let sizes =
      decimal-then b':' (length v) (length w) (λ d. omega arith) (append_cancel_left label e) in
    let cut = append_inj v w sizes.0 sizes.1 in (cut.0, tail_eq cut.1)
