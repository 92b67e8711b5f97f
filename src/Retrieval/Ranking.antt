-- ===== src/Retrieval/Ranking.antt =====
-- The order of the results of a keyword search, and which documents they are.
use file_nest.Base.{
  filter, ℕ, suc, ◌≤◌, ◌≡◌, refl, ap, ◌∙◌, inl, inr, Bool, List, [], ◌∷◌, arith, length, map, All,
  Bool-cases, ltb, ◌==◌,
}
use file_nest.Retrieval.Keyword.{KeywordSearchResult, insert_ranked, sort_ranked}

-- no result has a higher score than one before it
abbrev pub Falling : List KeywordSearchResult → Type 0
Falling [] = Unit {0}
Falling (r ∷ rest) = All (λ (s : KeywordSearchResult). s.score ≤ r.score) rest × Falling rest

abbrev pub has_score : ℕ → KeywordSearchResult → Bool
has_score n r = r.score == n

All-insert_ranked {ℓ} :
    (P : KeywordSearchResult → Type ℓ) (r : KeywordSearchResult)
    (results : List KeywordSearchResult)
    → P r
    → All P results
    → All P (insert_ranked r results)
unfolding insert_ranked
All-insert_ranked P r [] p h = (p, tt)
All-insert_ranked P r (s ∷ rest) p h = elim (Bool-cases (ltb r.score s.score)) [
  | inl e ↦ rw e (h.0, All-insert_ranked P r rest p h.1)
  | inr e ↦ rw e (p, h)
]

pub All-sort_ranked {ℓ} :
    (P : KeywordSearchResult → Type ℓ) (results : List KeywordSearchResult)
    → All P results
    → All P (sort_ranked results)
unfolding sort_ranked
All-sort_ranked P [] h = tt
All-sort_ranked P (r ∷ rest) h =
    All-insert_ranked P r (sort_ranked rest) h.0 (All-sort_ranked P rest h.1)

All-below :
    (r s : KeywordSearchResult) (rest : List KeywordSearchResult)
    → s.score ≤ r.score
    → All (λ (t : KeywordSearchResult). t.score ≤ s.score) rest
    → All (λ (t : KeywordSearchResult). t.score ≤ r.score) rest
All-below r s [] le h = tt
All-below r s (t ∷ rest) le h = (omega (arith, h.0, le), All-below r s rest le h.1)

Falling-insert_ranked :
    (r : KeywordSearchResult) (results : List KeywordSearchResult)
    → Falling results
    → Falling (insert_ranked r results)
unfolding insert_ranked
Falling-insert_ranked r [] h = (tt, tt)
Falling-insert_ranked r (s ∷ rest) h = elim (Bool-cases (ltb r.score s.score)) [
  | inl e ↦ rw e (
    All-insert_ranked (λ (t : KeywordSearchResult). t.score ≤ s.score) r rest (ground arith) h.0,
    Falling-insert_ranked r rest h.1,
  )
  | inr e ↦ let le : s.score ≤ r.score = ground arith in rw e ((le, All-below r s rest le h.0), h)
]

pub Falling-sort_ranked : (results : List KeywordSearchResult) → Falling (sort_ranked results)
unfolding sort_ranked
Falling-sort_ranked [] = tt
Falling-sort_ranked (r ∷ rest) =
    Falling-insert_ranked r (sort_ranked rest) (Falling-sort_ranked rest)

filter-insert_ranked :
    (n : ℕ) (r : KeywordSearchResult) (results : List KeywordSearchResult)
    → filter (has_score n) (insert_ranked r results) ≡ filter (has_score n) (r ∷ results)
unfolding insert_ranked
filter-insert_ranked n r [] = refl
filter-insert_ranked n r (s ∷ rest) = ground (arith, filter-insert_ranked n r rest)

-- Results of one score keep their order.
pub filter-sort_ranked :
    (n : ℕ) (results : List KeywordSearchResult)
    → filter (has_score n) (sort_ranked results) ≡ filter (has_score n) results
unfolding sort_ranked
filter-sort_ranked n [] = refl
filter-sort_ranked n (r ∷ rest) =
    filter-insert_ranked n r (sort_ranked rest) ∙ ground (arith, filter-sort_ranked n rest)

pub length-map {ℓ κ} :
    {A : Type ℓ} {B : Type κ} (f : A → B) (xs : List A) → length (map f xs) ≡ length xs
length-map f [] = refl
length-map f (x ∷ xs) = ap suc (length-map f xs)
