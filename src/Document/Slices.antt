-- ===== src/Document/Slices.antt =====
-- Slices of a text that meet, and the lengths of the lines of a text.
use file_nest.Base.{
  ℕ, zero, suc, ◌+◌, ◌-◌, ◌≤◌, ◌≡◌, refl, ap, sym, ◌∙◌, inl, inr, not, ◌&&◌, List, [], ◌∷◌, ◌++◌,
  arith, length, All, Bool-cases, ◌==◌,
}
use file_nest.FilePath.{Text, push}
use file_nest.Document.Lines.{splitlines, is_line_break, starts_with_newline}
use file_nest.Document.Chunker.{take, drop, slice}

length-take : (n : ℕ) (s : Text) → n ≤ length s → length (take n s) ≡ n
length-take zero s h = refl
length-take (suc n) [] h = omega arith
length-take (suc n) (c ∷ s) h = omega (arith, length-take n s (omega arith))

pub length-drop : (n : ℕ) (s : Text) → n ≤ length s → length (drop n s) + n ≡ length s
length-drop zero s h = omega arith
length-drop (suc n) [] h = omega arith
length-drop (suc n) (c ∷ s) h = omega (arith, length-drop n s (omega arith))

pub length-slice :
    (start end : ℕ) (s : Text)
    → start ≤ end
    → end ≤ length s
    → length (slice start end s) + start ≡ end
length-slice start end s h k = omega (
  arith,
  length-drop start s (omega arith),
  length-take (end - start) (drop start s) (omega (arith, length-drop start s (omega arith))),
)

take-append : (m n k : ℕ) (s : Text) → m + n ≡ k → take m s ++ take n (drop m s) ≡ take k s
take-append zero n k s h = ap (λ i. take i s) (omega arith)
take-append (suc m) n zero s h = absurd (omega arith)
take-append (suc m) zero (suc k) [] h = refl
take-append (suc m) (suc n) (suc k) [] h = refl
take-append (suc m) n (suc k) (c ∷ s) h = ap (λ t. c ∷ t) (take-append m n k s (omega arith))

pub drop-drop : (m n k : ℕ) (s : Text) → m + n ≡ k → drop n (drop m s) ≡ drop k s
drop-drop zero n k s h = ap (λ i. drop i s) (omega arith)
drop-drop (suc m) n zero s h = absurd (omega arith)
drop-drop (suc m) zero (suc k) [] h = refl
drop-drop (suc m) (suc n) (suc k) [] h = refl
drop-drop (suc m) n (suc k) (c ∷ s) h = drop-drop m n k s (omega arith)

-- Two slices that meet are one.
pub slice-append : (a b c : ℕ) (s : Text) → a ≤ b → b ≤ c → slice a b s ++ slice b c s ≡ slice a c s
slice-append a b c s h k =
    rw (sym (drop-drop a (b - a) b s (omega arith)))
      (take-append (b - a) (c - b) (c - a) (drop a s) (omega arith))

take-all : (s : Text) → take (length s) s ≡ s
take-all [] = refl
take-all (c ∷ s) = ap (λ t. c ∷ t) (take-all s)

pub slice-all : (s : Text) → slice 0 (length s) s ≡ s
slice-all s = ap (λ n. take n s) (omega arith) ∙ take-all s

pub slice_self : (a : ℕ) (s : Text) → slice a a s ≡ []
slice_self a s = let e : a - a ≡ 0 = omega arith in rw e refl

abbrev pub total : List Text → ℕ
total [] = 0
total (line ∷ lines) = length line + total lines

abbrev pub Filled : List Text → Type 0
Filled lines = All (λ line. 1 ≤ length line) lines

push-total :
    (c : ℕ) (lines : List Text)
    → Filled lines
    → (total (push c lines) ≡ suc (total lines)) × Filled (push c lines)
push-total c [] h = (refl, (omega arith, tt))
push-total c (line ∷ lines) h = (omega arith, (omega arith, h.1))

head_line :
    (lines : List Text) (s : Text) → total lines ≡ length s → 1 + total lines ≡ suc (length s)
head_line lines s h = omega arith

-- The lines of a text are not empty, and together as long as the text.
pub splitlines-total : (s : Text) → (total (splitlines s) ≡ length s) × Filled (splitlines s)
unfolding splitlines
splitlines-total [] = (refl, tt)
splitlines-total (c ∷ s) =
    let (sum, filled) = splitlines-total s in
    let (pushed, pushed_filled) = push-total c (splitlines s) filled in
    elim (Bool-cases (is_line_break c && not (c == 13 && starts_with_newline s))) [
      | inl e ↦ rw e (head_line (splitlines s) s sum, (omega arith, filled))
      | inr e ↦ rw e (pushed ∙ omega (arith, sum), pushed_filled)
    ]
