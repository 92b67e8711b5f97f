-- ===== src/Document/Pages.antt =====
-- The pages that `_page_range_for_offsets` names, for a document that is valid.
use mathlib.Core.List.{reverse, reverse_aux}
use file_nest.Base.{
  filter, ℕ, suc, ◌≤◌, ◌≡◌, refl, inl, inr, Bool, true, List, [], ◌∷◌, Option, none, some, arith,
  ok, length, last?, All, Bool-cases, ltb,
}
use file_nest.Document.Contracts.{
  Document, DocumentPage, validate_pages, validate_page_metadata, is_pdf,
}
use file_nest.Document.Chunker.{
  head?, page_numbers, page_range, page_overlaps, page_range_for_offsets, min, max,
}

abbrev Ascends : ℕ → List ℕ → Type 0
Ascends m [] = Unit {0}
Ascends m (n ∷ rest) = (m ≤ n) × Ascends n rest

Ascends-weaken : (m n : ℕ) (rest : List ℕ) → m ≤ n → Ascends n rest → Ascends m rest
Ascends-weaken m n [] h k = tt
Ascends-weaken m n (x ∷ rest) h k = (omega arith, k.1)

Ascends-of_valid :
    (size number end : ℕ) (pages : List DocumentPage)
    → validate_pages size number end pages ≡ ok tt
    → Ascends (suc number) (page_numbers pages)
unfolding validate_pages
Ascends-of_valid size number end [] h = tt
Ascends-of_valid size number end (page ∷ pages) h = (
  ground arith,
  Ascends-weaken page.page_number (suc page.page_number) (page_numbers pages) (omega arith)
      (Ascends-of_valid size page.page_number page.end_offset pages (ground arith)),
)

Ascends-filter :
    (p : DocumentPage → Bool) (m : ℕ) (pages : List DocumentPage)
    → Ascends m (page_numbers pages)
    → Ascends m (page_numbers (filter p pages))
Ascends-filter p m [] h = tt
Ascends-filter p m (page ∷ pages) h = elim (Bool-cases (p page)) [
  | inl e ↦ rw e (h.0, Ascends-filter p page.page_number pages h.1)
  | inr e ↦
      rw e
        (Ascends-filter p m pages (Ascends-weaken m page.page_number (page_numbers pages) h.0 h.1))
]

last-Ascends :
    (m n : ℕ) (rest : List ℕ)
    → Ascends m (n ∷ rest)
    → (k : ℕ) × (last? (n ∷ rest) ≡ some k) × (n ≤ k)
last-Ascends m n [] h = (n, refl, omega arith)
last-Ascends m n (x ∷ rest) h = let (k, e, le) = last-Ascends n x rest h.1 in (k, e, omega arith)

abbrev Numbered : List DocumentPage → Type 0
Numbered pages = All (λ (page : DocumentPage). 1 ≤ page.page_number) pages

Numbered-of_Ascends :
    (m : ℕ) (pages : List DocumentPage) → 1 ≤ m → Ascends m (page_numbers pages) → Numbered pages
Numbered-of_Ascends m [] k h = tt
Numbered-of_Ascends m (page ∷ pages) k h =
    (omega arith, Numbered-of_Ascends page.page_number pages (omega arith) h.1)

Numbered-filter :
    (p : DocumentPage → Bool) (pages : List DocumentPage)
    → Numbered pages
    → Numbered (filter p pages)
Numbered-filter p [] h = tt
Numbered-filter p (page ∷ pages) h = elim (Bool-cases (p page)) [
  | inl e ↦ rw e (h.0, Numbered-filter p pages h.1)
  | inr e ↦ rw e (Numbered-filter p pages h.1)
]

Numbered-reverse_aux :
    (pages done : List DocumentPage)
    → Numbered pages
    → Numbered done
    → Numbered (reverse_aux pages done)
Numbered-reverse_aux [] done h k = k
Numbered-reverse_aux (page ∷ pages) done h k = Numbered-reverse_aux pages (page ∷ done) h.1 (h.0, k)

head-Numbered :
    (pages : List DocumentPage) (n : ℕ)
    → Numbered pages
    → head? (page_numbers pages) ≡ some n
    → 1 ≤ n
head-Numbered [] n h e = absurd (cc e)
head-Numbered (page ∷ pages) n h e = ground arith

-- no pages, or a first and a last one in order
pub data IsRange : Option ℕ × Option ℕ → Type 0 where
  no_pages : IsRange (none, none)
  some_pages : (first last : ℕ) → 1 ≤ first → first ≤ last → IsRange (some first, some last)

IsRange-of_overlap :
    (numbers : List ℕ) (rest : Option ℕ × Option ℕ)
    → Ascends 1 numbers
    → IsRange rest
    → IsRange (elim (head? numbers) [ some first ↦ (some first, last? numbers) | none ↦ rest ])
IsRange-of_overlap [] rest h k = k
IsRange-of_overlap (n ∷ numbers) rest h k =
    let (last, e, le) = last-Ascends 1 n numbers h in rw e (some_pages n last h.0 le)

IsRange-of_sides :
    (before after : Option ℕ)
    → ((n : ℕ) → before ≡ some n → 1 ≤ n)
    → ((n : ℕ) → after ≡ some n → 1 ≤ n)
    → IsRange (elim before [
      | none ↦ (none, none)
      | some first ↦ elim after [
        | none ↦ (none, none)
        | some last ↦ (some (min first last), some (max first last))
      ]
    ])
IsRange-of_sides none after h k = no_pages
IsRange-of_sides (some first) none h k = no_pages
IsRange-of_sides (some first) (some last) h k =
    let a = h first refl in
    let b = k last refl in
    some_pages (min first last) (max first last) (ground arith) (ground arith)

page_range_lem :
    (pages : List DocumentPage) (start end : ℕ)
    → Ascends 1 (page_numbers pages)
    → IsRange (page_range pages start end)
page_range_lem pages start end h =
    let numbered = Numbered-of_Ascends 1 pages (omega arith) h in
    let ends = λ (page : DocumentPage). ltb start page.end_offset in
    let starts = λ (page : DocumentPage). ltb page.start_offset end in
    IsRange-of_overlap (page_numbers (filter (page_overlaps start end) pages)) _
      (Ascends-filter (page_overlaps start end) 1 pages h)
      (IsRange-of_sides _ _
        (λ n e. head-Numbered (filter ends pages) n (Numbered-filter ends pages numbered) e)
        (λ n e.
          head-Numbered (filter starts (reverse pages)) n
            (Numbered-filter starts (reverse pages) (Numbered-reverse_aux pages [] numbered tt)) e))

pdf_pages :
    (d : Document)
    → validate_page_metadata d ≡ ok tt
    → is_pdf d.source_format ≡ true
    → Ascends 1 (page_numbers d.pages)
unfolding validate_page_metadata
pdf_pages d h e = Ascends-of_valid (length d.normalized_text) 0 0 d.pages (ground arith)

-- The page range of any slice of a valid document.
pub page_range_for_offsets-IsRange :
    (d : Document) (start end : ℕ)
    → validate_page_metadata d ≡ ok tt
    → IsRange (page_range_for_offsets d start end)
unfolding page_range_for_offsets
page_range_for_offsets-IsRange d start end h = elim (Bool-cases (is_pdf d.source_format)) [
  | inl e ↦ rw e (page_range_lem d.pages start end (pdf_pages d h e))
  | inr e ↦ rw e no_pages
]
