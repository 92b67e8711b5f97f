-- ===== src/Approval/Rows.antt =====
-- What an UPDATE by a key does to the next SELECT, in backend/app/repositories.py.
use file_nest.Base.{
  ℕ, ◌≡◌, refl, sym, ap, ◌∙◌, true, false, ◌==◌, ==_iff, some, List, [], ◌∷◌, Bool-cases, inl, inr,
}
use file_nest.Approval.{find_row, put_row}

find_first {ℓ} :
    {A : Type ℓ} (key : A → ℕ) (id : ℕ) (x : A) (rows : List A)
    → (key x == id) ≡ true
    → find_row key id (x ∷ rows) ≡ some x
unfolding find_row
find_first key id x rows t = rw t refl

find_later {ℓ} :
    {A : Type ℓ} (key : A → ℕ) (id : ℕ) (x : A) (rows : List A)
    → (key x == id) ≡ false
    → find_row key id (x ∷ rows) ≡ find_row key id rows
unfolding find_row
find_later key id x rows t = rw t refl

put_first {ℓ} :
    {A : Type ℓ} (key : A → ℕ) (id : ℕ) (new x : A) (rows : List A)
    → (key x == id) ≡ true
    → put_row key id new (x ∷ rows) ≡ new ∷ rows
unfolding put_row
put_first key id new x rows t = rw t refl

put_later {ℓ} :
    {A : Type ℓ} (key : A → ℕ) (id : ℕ) (new x : A) (rows : List A)
    → (key x == id) ≡ false
    → put_row key id new (x ∷ rows) ≡ x ∷ put_row key id new rows
unfolding put_row
put_later key id new x rows t = rw t refl

pub find_row-key {ℓ} :
    {A : Type ℓ} (key : A → ℕ) (id : ℕ) (rows : List A) (r : A)
    → find_row key id rows ≡ some r
    → key r ≡ id
find_row-key key id [] r h = absurd (unfold find_row in cc h)
find_row-key key id (x ∷ rows) r h = elim (Bool-cases (key x == id)) [
  | inl t ↦
      let first = find_first key id x rows t in ap key (cc (h, first)) ∙ (==_iff (key x) id).0 t
  | inr t ↦ find_row-key key id rows r (sym (find_later key id x rows t) ∙ h)
]

-- an UPDATE that keeps the key is what the next SELECT finds
pub find_row-put {ℓ} :
    {A : Type ℓ} (key : A → ℕ) (id : ℕ) (new : A) (rows : List A) (r : A)
    → find_row key id rows ≡ some r
    → key new ≡ id
    → find_row key id (put_row key id new rows) ≡ some new
find_row-put key id new [] r h e = absurd (unfold find_row in cc h)
find_row-put key id new (x ∷ rows) r h e = elim (Bool-cases (key x == id)) [
  | inl t ↦
      ap (find_row key id) (put_first key id new x rows t)
      ∙ find_first key id new rows ((==_iff (key new) id).1 e)
  | inr t ↦
      ap (find_row key id) (put_later key id new x rows t)
      ∙ find_later key id x (put_row key id new rows) t
      ∙ find_row-put key id new rows r (sym (find_later key id x rows t) ∙ h) e
]
