-- ===== src/Timestamp/Digits.antt =====
-- src/timestamp.rs: the fixed-width numbers of the format string, `{n:0w}`.
use ecapplog_rust.Base.{
  ℕ, zero, suc, ◌+◌, ◌-◌, ◌/◌, ◌%◌, ◌≤◌, ◌<◌, ◌≡◌, refl, ap, ◌∙◌, [], ◌∷◌, ◌++◌, arith, length,
  replicate,
}
use ecapplog_rust.Base.Text.{Text, decimal, decimal_digits}
use ecapplog_rust.Timestamp.{zero_padded}
use native.Mathlib.Decide.{dec_lt}

-- The `w` last digits of a number, in front of a text.
abbrev pub fixed : ℕ → ℕ → Text → Text
fixed zero n rest = rest
fixed (suc w) n rest = fixed w (n / 10) ((b'0' + n % 10) ∷ rest)

-- The number has at most `w` digits.
abbrev pub Fits : ℕ → ℕ → Type 0
Fits zero n = n ≡ 0
Fits (suc w) n = Fits w (n / 10)

fixed-zero : (w : ℕ) (rest : Text) → replicate w b'0' ++ rest ≡ fixed w 0 rest
fixed-zero zero rest = refl
fixed-zero (suc w) rest = replicate-front w ∙ fixed-zero w (b'0' ∷ rest)
  where
    replicate-front : (n : ℕ) → replicate (suc n) b'0' ++ rest ≡ replicate n b'0' ++ b'0' ∷ rest
    replicate-front zero = refl
    replicate-front (suc n) = ap (◌∷◌ b'0') (replicate-front n)

digits_small :
    (f n : ℕ) (rest : Text) → n < 10 → decimal_digits (suc f) n rest ≡ (b'0' + n % 10) ∷ rest
unfolding decimal_digits
digits_small f n rest h = ground arith

digits_large :
    (f n : ℕ) (rest : Text)
    → 10 ≤ n
    → decimal_digits (suc f) n rest ≡ decimal_digits f (n / 10) ((b'0' + n % 10) ∷ rest)
unfolding decimal_digits
digits_large f n rest h = ground arith

-- Zeros up to the width in front of the digits are the fixed digits.
padded :
    (w f n : ℕ) (rest : Text)
    → Fits (suc w) n
    → n < f
    → replicate (suc w + length rest - length (decimal_digits f n rest)) b'0'
        ++ decimal_digits f n rest
      ≡ fixed (suc w) n rest
padded w zero n rest fits h = absurd (omega arith)
padded zero (suc f) n rest fits h =
    rw (digits_small f n rest (omega arith))
      (ap (λ k. replicate k b'0' ++ (b'0' + n % 10) ∷ rest) {y = 0} (omega arith))
padded (suc w) (suc f) n rest fits h = elim (dec_lt n 10) [
  | yes p ↦ rw (digits_small f n rest p) (
      ap (λ k. replicate k b'0' ++ (b'0' + n % 10) ∷ rest) {y = suc w} (omega arith)
      ∙ fixed-zero (suc w) ((b'0' + n % 10) ∷ rest)
      ∙ ap (λ k. fixed (suc w) k ((b'0' + n % 10) ∷ rest)) {x = 0} (omega arith))
  | no p ↦ rw (digits_large f n rest (omega arith)) (
      ap (λ k. replicate k b'0' ++ decimal_digits f (n / 10) ((b'0' + n % 10) ∷ rest)) (omega arith)
      ∙ padded w f (n / 10) ((b'0' + n % 10) ∷ rest) fits (omega arith))
]

-- A number that fits its width is printed as exactly that many digits.
pub zero_padded-fixed : (w n : ℕ) → Fits (suc w) n → zero_padded (suc w) n ≡ fixed (suc w) n []
unfolding zero_padded decimal
zero_padded-fixed w n h =
    ap (λ k. replicate k b'0' ++ decimal_digits (suc n) n []) (omega arith)
    ∙ padded w (suc n) n [] h (omega arith)
