-- ===== src/Base/Lists.antt =====
-- Lists measured by native numbers, under the library's names.
use Prim.Native.Nat.{ℕ, zero, suc, ◌+◌, ◌-◌, ◌≤◌}
use mathlib.Core.Path.{◌≡◌, refl, ap, ◌∙◌}
use native.Mathlib.Nat.{suc-add}
use mathlib.Core.Bool.{Bool, true, false}
use mathlib.Core.Option.{Option, none, some}
use mathlib.Core.List.{List, [], ◌∷◌, ◌++◌, map}
use native.Mathlib.Omega.{arith}

module _ {ℓ} {A : Type ℓ} where
  abbrev pub length : List A → ℕ
  length [] = 0
  length (x ∷ xs) = suc (length xs)

  abbrev pub is_nil : List A → Bool
  is_nil [] = true
  is_nil (x ∷ xs) = false

  -- `Vec::pop_front` and `drain` drop from the front.
  abbrev pub drop : ℕ → List A → List A
  drop zero xs = xs
  drop (suc n) [] = []
  drop (suc n) (x ∷ xs) = drop n xs

  abbrev pub take : ℕ → List A → List A
  take zero xs = []
  take (suc n) [] = []
  take (suc n) (x ∷ xs) = x ∷ take n xs

  abbrev pub get_or : List A → ℕ → A → A
  get_or [] i d = d
  get_or (x ∷ xs) zero d = x
  get_or (x ∷ xs) (suc i) d = get_or xs i d

  abbrev pub get_elem? : List A → ℕ → Option A
  get_elem? [] i = none
  get_elem? (x ∷ xs) zero = some x
  get_elem? (x ∷ xs) (suc i) = get_elem? xs i

  -- `Vec::remove`, where the index is in range.
  abbrev pub erase_idx : List A → ℕ → List A
  erase_idx [] i = []
  erase_idx (x ∷ xs) zero = xs
  erase_idx (x ∷ xs) (suc i) = x ∷ erase_idx xs i

  abbrev pub replicate : ℕ → A → List A
  replicate zero a = []
  replicate (suc n) a = a ∷ replicate n a

  pub length-append : (xs ys : List A) → length (xs ++ ys) ≡ length xs + length ys
  length-append [] ys = omega arith
  length-append (x ∷ xs) ys = omega (arith, length-append xs ys)

  pub take-length-append : (xs ys : List A) → take (length xs) (xs ++ ys) ≡ xs
  take-length-append [] ys = refl
  take-length-append (x ∷ xs) ys = ap (◌∷◌ x) (take-length-append xs ys)

  pub drop-length-append : (xs ys : List A) → drop (length xs) (xs ++ ys) ≡ ys
  drop-length-append [] ys = refl
  drop-length-append (x ∷ xs) ys = drop-length-append xs ys

  pub get_elem?-append_one : (xs : List A) (x : A) → get_elem? (xs ++ x ∷ []) (length xs) ≡ some x
  get_elem?-append_one [] x = refl
  get_elem?-append_one (y ∷ xs) x = get_elem?-append_one xs x

  pub erase_idx-append_one : (xs : List A) (x : A) → erase_idx (xs ++ x ∷ []) (length xs) ≡ xs
  erase_idx-append_one [] x = refl
  erase_idx-append_one (y ∷ xs) x = ap (◌∷◌ y) (erase_idx-append_one xs x)

  pub length-replicate : (n : ℕ) (a : A) → length (replicate n a) ≡ n
  length-replicate zero a = refl
  length-replicate (suc n) a = ap suc (length-replicate n a)

  abbrev pub All {κ} : (A → Type κ) → List A → Type κ
  All P [] = Unit
  All P (x ∷ xs) = P x × All P xs

  pub is_nil-append_one : (xs : List A) (x : A) → is_nil (xs ++ x ∷ []) ≡ false
  is_nil-append_one [] x = refl
  is_nil-append_one (y ∷ xs) x = refl

  pub drop-drop-append :
      (j k : ℕ) (xs ys : List A)
      → j ≤ length xs
      → drop k (drop j xs ++ ys) ≡ drop (j + k) (xs ++ ys)
  drop-drop-append zero k xs ys h = ap (λ n. drop n (xs ++ ys)) (omega arith)
  drop-drop-append (suc j) k [] ys h = elim h [ ]
  drop-drop-append (suc j) k (x ∷ xs) ys h =
      rw (suc-add j k) (drop-drop-append j k xs ys (omega arith))

  pub length-drop : (n : ℕ) (xs : List A) → length (drop n xs) ≡ length xs - n
  length-drop zero xs = omega arith
  length-drop (suc n) [] = omega arith
  length-drop (suc n) (x ∷ xs) = omega (arith, length-drop n xs)

  -- The last `n` entries of a list.
  abbrev pub newest : ℕ → List A → List A
  newest n xs = drop (length xs - n) xs

  pub newest_all : (n : ℕ) (xs : List A) → length xs ≤ n → newest n xs ≡ xs
  newest_all n xs h = ap (λ k. drop k xs) {y = 0} (omega arith)

  pub newest-newest-append :
      (n : ℕ) (xs ys : List A) → newest n (newest n xs ++ ys) ≡ newest n (xs ++ ys)
  newest-newest-append n xs ys =
      drop-drop-append (length xs - n) (length (newest n xs ++ ys) - n) xs ys (omega arith)
      ∙ ap (λ k. drop k (xs ++ ys))
          (omega (
            arith,
            length-append (newest n xs) ys,
            length-drop (length xs - n) xs,
            length-append xs ys,
          ))

pub length-map {ℓ κ} :
    {A : Type ℓ} {B : Type κ} (f : A → B) (xs : List A) → length (map f xs) ≡ length xs
length-map f [] = refl
length-map f (x ∷ xs) = ap suc (length-map f xs)
