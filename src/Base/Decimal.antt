-- ===== src/Base/Decimal.antt =====
-- Python's `str` of a natural number, and the number that digits stand for.
use Prim.Native.Nat.{ℕ, zero, suc, ◌+◌, ◌-◌, ◌*◌, ◌/◌, ◌%◌, ◌<◌}
use mathlib.Core.Path.{◌≡◌, refl, sym, ap, ◌∙◌}
use mathlib.Core.Logic.{inl, inr}
use mathlib.Core.Bool.{Bool, true, false, ◌&&◌}
use mathlib.Core.List.{List, [], ◌∷◌, ◌++◌, append_assoc}
use native.Mathlib.Omega.{arith}
use file_nest.Base.Tests.{ltb, leb, if◌then◌else◌, Bool-cases}

-- `str` of a number, with as much fuel as the number
unfoldable pub decimal_from : ℕ → ℕ → List ℕ
decimal_from zero n = []
decimal_from (suc fuel) n =
    let rest = decimal_from fuel (n / 10) in
    if ltb n 10 then (b'0' + n) ∷ [] else rest ++ (b'0' + n % 10) ∷ []

unfoldable pub decimal : ℕ → List ℕ
decimal n = decimal_from (suc n) n

abbrev pub is_digit : ℕ → Bool
is_digit c = leb b'0' c && leb c b'9'

-- the number that the text goes on with
unfoldable pub read_number : ℕ → List ℕ → ℕ
read_number n [] = n
read_number n (c ∷ rest) =
    let more = read_number (10 * n + (c - b'0')) rest in if is_digit c then more else n

one_digit :
    (n : ℕ) (rest : List ℕ)
    → ltb n 10 ≡ true
    → read_number 0 ((b'0' + n) ∷ rest) ≡ read_number n rest
unfolding read_number
one_digit n rest h =
    let digit : is_digit (b'0' + n) ≡ true = ground arith in
    let value : 10 * 0 + ((b'0' + n) - b'0') ≡ n = omega arith in rw (digit, value) refl

next_digit :
    (n : ℕ) (rest : List ℕ) → read_number (n / 10) ((b'0' + n % 10) ∷ rest) ≡ read_number n rest
unfolding read_number
next_digit n rest =
    let digit : is_digit (b'0' + n % 10) ≡ true = ground arith in
    let value : 10 * (n / 10) + ((b'0' + n % 10) - b'0') ≡ n = omega arith in rw (digit, value) refl

-- The fuel of `decimal` is enough: the digits that it writes are read back as the number.
pub decimal_from-read :
    (fuel n : ℕ) (rest : List ℕ)
    → n < fuel
    → read_number 0 (decimal_from fuel n ++ rest) ≡ read_number n rest
unfolding decimal_from
decimal_from-read zero n rest h = absurd (omega arith)
decimal_from-read (suc fuel) n rest h = elim (Bool-cases (ltb n 10)) [
  | inl small ↦ rw small (one_digit n rest small)
  | inr large ↦
      rw (large, append_assoc (decimal_from fuel (n / 10)) ((b'0' + n % 10) ∷ []) rest)
        (decimal_from-read fuel (n / 10) ((b'0' + n % 10) ∷ rest) (ground arith)
          ∙ next_digit n rest)
]

-- a number in front of what is no digit
pub decimal-read :
    (n c : ℕ) (rest : List ℕ) → is_digit c ≡ false → read_number 0 (decimal n ++ c ∷ rest) ≡ n
unfolding decimal read_number
decimal-read n c rest h = decimal_from-read (suc n) n (c ∷ rest) (omega arith) ∙ rw h refl

decimal-read_all : (n : ℕ) → read_number 0 (decimal n ++ []) ≡ n
unfolding decimal read_number
decimal-read_all n = decimal_from-read (suc n) n [] (omega arith) ∙ refl

pub decimal_injective : (m n : ℕ) → decimal m ≡ decimal n → m ≡ n
decimal_injective m n h =
    sym (decimal-read_all m) ∙ ap (λ text. read_number 0 (text ++ [])) h ∙ decimal-read_all n
