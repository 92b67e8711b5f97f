-- ===== src/Retrieval/Scan.antt =====
-- The matches that `_find_match_ranges` lists: all of them, from left to right, without overlap.
use file_nest.Base.{
  ℕ, zero, suc, ◌+◌, ◌-◌, ◌≤◌, ◌<◌, ◌≡◌, sym, inl, inr, true, false, none, some, List, [], ◌∷◌,
  arith, length, Bool-cases, Option-cases,
}
use mathlib.Core.Path.{subst}
use file_nest.FilePath.{Text}
use file_nest.PathPolicy.{starts_with}
use file_nest.Document.{drop}
use file_nest.Document.Slices.{drop-drop, length-drop}
use file_nest.Retrieval.Keyword.{find, ranges_from}

-- the keyword stands at a place of the text
abbrev pub Matches : Text → Text → ℕ → Type 0
Matches keyword text place = starts_with keyword (drop place text) ≡ true

-- no match starts in a half-open range
abbrev pub Free : Text → Text → ℕ → ℕ → Type 0
Free keyword text start end =
    (place : ℕ) → start ≤ place → place < end → starts_with keyword (drop place text) ≡ false

-- the greedy scan of a text from a place on: the next match, and the scan behind it
pub data IsScan (keyword text : Text) : ℕ → List (ℕ × ℕ) → Type 0 where
  ends : (start : ℕ) → Free keyword text start (suc (length text)) → IsScan keyword text start []
  next :
      (start place : ℕ) (rest : List (ℕ × ℕ))
      → start ≤ place
      → place + length keyword ≤ length text
      → Free keyword text start place
      → Matches keyword text place
      → IsScan keyword text (place + length keyword) rest
      → IsScan keyword text start ((place, place + length keyword) ∷ rest)

starts_with-le : (keyword s : Text) → starts_with keyword s ≡ true → length keyword ≤ length s
unfolding starts_with
starts_with-le [] s h = omega arith
starts_with-le (c ∷ keyword) [] h = absurd (cc h)
starts_with-le (c ∷ keyword) (d ∷ s) h = ground (arith, starts_with-le keyword s)

find-none :
    (keyword : Text) (place : ℕ) (s : Text) (i : ℕ)
    → find keyword place s ≡ none
    → starts_with keyword (drop i s) ≡ false
unfolding find
find-none keyword place [] zero h = ground arith
find-none keyword place [] (suc i) h = ground arith
find-none keyword place (c ∷ s) zero h = ground arith
find-none keyword place (c ∷ s) (suc i) h = find-none keyword (suc place) s i (ground arith)

-- the first match, as far from the start of the search as from the start of the rest
record IsFirst (keyword : Text) (place : ℕ) (s : Text) (found : ℕ) : Type 0 where
  distance : ℕ
  stands : found ≡ place + distance
  matches : starts_with keyword (drop distance s) ≡ true
  first : (i : ℕ) → i < distance → starts_with keyword (drop i s) ≡ false
  inside : distance ≤ length s

find-some :
    (keyword : Text) (place : ℕ) (s : Text) (found : ℕ)
    → find keyword place s ≡ some found
    → IsFirst keyword place s found
unfolding find
find-some keyword place [] found h = record {
  distance = 0;
  stands = ground arith;
  matches = ground arith;
  first = λ i lt. absurd (omega arith);
  inside = omega arith;
}
find-some keyword place (c ∷ s) found h = elim (Bool-cases (starts_with keyword (c ∷ s))) [
  | inl e ↦ record {
    distance = 0;
    stands = ground arith;
    matches = e;
    first = λ i lt. absurd (omega arith);
    inside = omega arith;
  }
  | inr e ↦
      let f = find-some keyword (suc place) s found (ground arith) in
      record {
        distance = suc f.distance;
        stands = omega (arith, f.stands);
        matches = f.matches;
        first = later_only keyword c s f.distance e f.first;
        inside = omega (arith, f.inside);
      }
]
  where
    later_only :
        (keyword : Text) (c : ℕ) (s : Text) (distance : ℕ)
        → starts_with keyword (c ∷ s) ≡ false
        → ((i : ℕ) → i < distance → starts_with keyword (drop i s) ≡ false)
        → (i : ℕ) → i < suc distance
        → starts_with keyword (drop i (c ∷ s)) ≡ false
    later_only keyword c s distance e first zero lt = e
    later_only keyword c s distance e first (suc i) lt = first i (omega arith)

module _ (keyword text : Text) (filled : 1 ≤ length keyword) where
  -- a place of the text as a place of the rest behind a start
  shifted :
      (start place : ℕ) → start ≤ place → drop (place - start) (drop start text) ≡ drop place text
  shifted start place h = drop-drop start (place - start) place text (omega arith)

  pub ranges_from-IsScan :
      (fuel start : ℕ)
      → start ≤ length text
      → length text < start + fuel
      → IsScan keyword text start (ranges_from fuel text keyword start)
  unfolding ranges_from
  ranges_from-IsScan zero start h k = absurd (omega arith)
  ranges_from-IsScan (suc fuel) start h k =
      elim (Option-cases (find keyword start (drop start text))) [
        | inl e ↦
            rw (ranges_from, e)
              (ends start (λ place le lt.
                subst (λ s. starts_with keyword s ≡ false) (shifted start place le)
                  (find-none keyword start (drop start text) (place - start) e)))
        | inr (found, e) ↦
            let f = find-some keyword start (drop start text) found e in
            let rest = drop-drop start f.distance found text (sym f.stands) in
            let matches : Matches keyword text found =
              subst (λ s. starts_with keyword s ≡ true) rest f.matches in
            let reach : found ≤ length text =
              omega (arith, f.stands, f.inside, length-drop start text h) in
            let fits : found + length keyword ≤ length text = omega (
              arith,
              starts_with-le keyword (drop found text) matches,
              length-drop found text reach,
            ) in
            rw (ranges_from, e)
              (next start found _ (omega (arith, f.stands)) fits
                (λ place le lt.
                  subst (λ s. starts_with keyword s ≡ false) (shifted start place le)
                    (f.first (place - start) (omega (arith, f.stands))))
                matches
                (ranges_from-IsScan fuel (found + length keyword) fits (omega (arith, f.stands))))
      ]
