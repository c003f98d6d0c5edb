-- ===== src/Base/Text.antt =====
-- A Rust `String` as its UTF-8 bytes. Literals of the source are ASCII, so their bytes are their
-- code points.
use Prim.Native.Nat.{ℕ, zero, suc, ◌+◌, ◌-◌, ◌/◌, ◌%◌}
use Prim.Native.Char.{code}
use Prim.Native.String.{String}
use mathlib.Core.Path.{◌≡◌, refl, ap}
use mathlib.Core.Logic.{◌≢◌}
use mathlib.Core.Bool.{Bool, true, false, ◌&&◌}
use mathlib.Core.List.{List, [], ◌∷◌}
use native.Mathlib.Omega.{arith}
use ecapplog_rust.Base.Tests.{ltb, leb, ◌==◌, if◌then◌else◌}

abbrev pub Text : Type 0
Text = List ℕ

abbrev pub codes : String → Text
codes String.[] = []
codes (String.◌∷◌ c s) = code c ∷ codes s

-- `==` on strings.
unfoldable pub text_eq : Text → Text → Bool
text_eq [] [] = true
text_eq [] (y ∷ ys) = false
text_eq (x ∷ xs) [] = false
text_eq (x ∷ xs) (y ∷ ys) = x == y && text_eq xs ys

pub text_eq→eq : (s t : Text) → text_eq s t ≡ true → s ≡ t
unfolding text_eq
text_eq→eq [] [] h = refl
text_eq→eq [] (y ∷ ys) h = ground arith
text_eq→eq (x ∷ xs) [] h = ground arith
text_eq→eq (x ∷ xs) (y ∷ ys) h = ground (arith, text_eq→eq xs ys)

pub text_eq_refl : (s : Text) → text_eq s s ≡ true
unfolding text_eq
text_eq_refl [] = refl
text_eq_refl (x ∷ xs) = ground (arith, text_eq_refl xs)

-- `str::to_ascii_uppercase`: bytes outside a-z, those of multi-byte characters included, stay.
abbrev pub upper_byte : ℕ → ℕ
upper_byte c = if leb b'a' c && leb c b'z' then c - 32 else c

unfoldable pub to_ascii_uppercase : Text → Text
to_ascii_uppercase [] = []
to_ascii_uppercase (c ∷ s) = upper_byte c ∷ to_ascii_uppercase s

pub to_ascii_uppercase_idem :
    (s : Text) → to_ascii_uppercase (to_ascii_uppercase s) ≡ to_ascii_uppercase s
unfolding to_ascii_uppercase
to_ascii_uppercase_idem [] = refl
to_ascii_uppercase_idem (c ∷ s) = ground (arith, to_ascii_uppercase_idem s)

-- The decimal digits of a number, `n.to_string()`. The fuel `suc n` covers its digits.
unfoldable pub decimal_digits : ℕ → ℕ → Text → Text
decimal_digits zero n rest = rest
decimal_digits (suc f) n rest =
    let more = decimal_digits f (n / 10) ((b'0' + n % 10) ∷ rest) in
    if ltb n 10 then (b'0' + n) ∷ rest else more

unfoldable pub decimal : ℕ → Text
unfolding decimal_digits
decimal n = decimal_digits (suc n) n []

pub text_eq_false→ne : (s t : Text) → text_eq s t ≡ false → t ≢ s
text_eq_false→ne s t h e = cc (text_eq_refl s, ap (text_eq s) e)

-- `str::starts_with`.
unfoldable pub starts_with : Text → Text → Bool
starts_with [] s = true
starts_with (p ∷ ps) [] = false
starts_with (p ∷ ps) (c ∷ s) = p == c && starts_with ps s
