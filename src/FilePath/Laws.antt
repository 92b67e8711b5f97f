-- ===== src/FilePath/Laws.antt =====
-- Laws of text as code points: equality, `split` against `join`, and the parts that a parse keeps.
use file_nest.Base.{
  ℕ, ◌≡◌, ◌≢◌, ◌↔◌, refl, ap, ◌∙◌, Bool, true, false, ◌||◌, any, List, [], ◌∷◌, ◌++◌, arith, ◌==◌,
  Bool-cases, inl, inr,
}
use file_nest.FilePath.Parse.{
  Text, text_eq, push, split, join, slash, is_dot, is_dot_dot, is_blank, keep_parts, split_root,
  pure_posix_path,
}

text_eq_sound : (s t : Text) → text_eq s t ≡ true → s ≡ t
unfolding text_eq
text_eq_sound [] [] h = refl
text_eq_sound [] (b ∷ t) h = cc
text_eq_sound (a ∷ s) [] h = cc
text_eq_sound (a ∷ s) (b ∷ t) h = ground (arith, text_eq_sound s t)

pub text_eq_refl : (s : Text) → text_eq s s ≡ true
unfolding text_eq
text_eq_refl [] = refl
text_eq_refl (a ∷ s) = ground (arith, text_eq_refl s)

pub text_eq_iff : (s t : Text) → (text_eq s t ≡ true) ↔ (s ≡ t)
text_eq_iff s t = (text_eq_sound s t, λ e. rw e (text_eq_refl t))

-- no occurrence of a character
abbrev pub Lacks : ℕ → Text → Type 0
Lacks sep [] = Unit {0}
Lacks sep (c ∷ s) = (c ≢ sep) × Lacks sep s

abbrev pub EachLacks : ℕ → List Text → Type 0
EachLacks sep [] = Unit {0}
EachLacks sep (s ∷ rest) = Lacks sep s × EachLacks sep rest

push-EachLacks :
    (sep c : ℕ) (parts : List Text) → c ≢ sep → EachLacks sep parts → EachLacks sep (push c parts)
push-EachLacks sep c [] h k = ((h, tt), tt)
push-EachLacks sep c (s ∷ rest) h k = ((h, k.0), k.1)

-- The parts of a split hold no separator.
pub split-EachLacks : (sep : ℕ) (s : Text) → EachLacks sep (split sep s)
unfolding split
split-EachLacks sep [] = (tt, tt)
split-EachLacks sep (c ∷ s) = elim (Bool-cases (c == sep)) [
  | inl e ↦ rw e (tt, split-EachLacks sep s)
  | inr e ↦ rw e (push-EachLacks sep c (split sep s) (λ p. ground arith) (split-EachLacks sep s))
]

-- A part of a normalised relative path: one proper name.
pub record IsName (s : Text) : Type 0 where
  pub not_blank : is_blank s ≡ false
  pub not_dot : is_dot s ≡ false
  pub not_dot_dot : is_dot_dot s ≡ false
  pub no_slash : Lacks slash s

abbrev pub EachName : List Text → Type 0
EachName [] = Unit {0}
EachName (s ∷ rest) = IsName s × EachName rest

pub keep_parts-EachLacks :
    (parts : List Text) → EachLacks slash parts → EachLacks slash (keep_parts parts)
unfolding keep_parts
keep_parts-EachLacks [] h = tt
keep_parts-EachLacks (s ∷ rest) h = elim (Bool-cases (is_blank s || is_dot s)) [
  | inl e ↦ rw e (keep_parts-EachLacks rest h.1)
  | inr e ↦ rw e (h.0, keep_parts-EachLacks rest h.1)
]

split-append : (sep : ℕ) (s t : Text) → Lacks sep s → split sep (s ++ (sep ∷ t)) ≡ s ∷ split sep t
unfolding split
split-append sep [] t h = ground arith
split-append sep (c ∷ s) t h = ground (arith, split-append sep s t h.1)

split-Lacks : (sep : ℕ) (s : Text) → Lacks sep s → split sep s ≡ s ∷ []
unfolding split
split-Lacks sep [] h = refl
split-Lacks sep (c ∷ s) h = ground (arith, split-Lacks sep s h.1)

-- `sep.join(parts).split(sep)` is `parts`.
pub split-join :
    (sep : ℕ) (s : Text) (rest : List Text)
    → Lacks sep s
    → EachLacks sep rest
    → split sep (join sep (s ∷ rest)) ≡ s ∷ rest
unfolding join
split-join sep s [] h k = split-Lacks sep s h
split-join sep s (t ∷ rest) h k =
    split-append sep s (join sep (t ∷ rest)) h
    ∙ ap (λ parts. s ∷ parts) (split-join sep t rest k.0 k.1)

pub keep_parts-EachName : (parts : List Text) → EachName parts → keep_parts parts ≡ parts
unfolding keep_parts
keep_parts-EachName [] n = refl
keep_parts-EachName (s ∷ rest) n =
    rw (n.0.not_blank, n.0.not_dot, keep_parts-EachName rest n.1) refl

pub EachName-EachLacks : (parts : List Text) → EachName parts → EachLacks slash parts
EachName-EachLacks [] n = tt
EachName-EachLacks (s ∷ rest) n = (n.0.no_slash, EachName-EachLacks rest n.1)

-- the first character is that of the first name
split_root-no_slash : (c : ℕ) (s : Text) → c ≢ slash → split_root (c ∷ s) ≡ ([], c ∷ s)
unfolding split_root
split_root-no_slash c [] h = ground arith
split_root-no_slash c (b ∷ []) h = ground arith
split_root-no_slash c (b ∷ d ∷ s) h = ground arith

join-head :
    (c : ℕ) (s : Text) (rest : List Text) → (t : Text) × (join slash ((c ∷ s) ∷ rest) ≡ c ∷ t)
unfolding join
join-head c s [] = (s, refl)
join-head c s (t ∷ rest) = (s ++ (slash ∷ join slash (t ∷ rest)), refl)

-- Parsing the names that are joined by slashes gives back the names, and no root.
pub pure_posix_path-join :
    (s : Text) (rest : List Text)
    → EachName (s ∷ rest)
    → pure_posix_path (join slash (s ∷ rest)) ≡ record { root = []; parts = s ∷ rest }
unfolding pure_posix_path
pure_posix_path-join [] rest n = absurd (cc n.0.not_blank)
pure_posix_path-join (c ∷ s) rest n =
    let (t, head) = join-head c s rest in
    let root : split_root (join slash ((c ∷ s) ∷ rest)) ≡ ([], join slash ((c ∷ s) ∷ rest)) =
      rw head (split_root-no_slash c t n.0.no_slash.0) in
    rw root (
      rw
        (
          split-join slash (c ∷ s) rest n.0.no_slash (EachName-EachLacks rest n.1),
          keep_parts-EachName ((c ∷ s) ∷ rest) n,
        )
        refl)

Lacks-of_test : (sep : ℕ) (s : Text) → any (λ c. c == sep) s ≡ false → Lacks sep s
Lacks-of_test sep [] h = tt
Lacks-of_test sep (c ∷ s) h = (ground arith, Lacks-of_test sep s (ground arith))

abbrev pub is_no_name : Text → Bool
is_no_name s = is_blank s || is_dot s || is_dot_dot s || any (λ c. c == slash) s

-- Proper names by computation.
pub EachName-of_test : (parts : List Text) → any is_no_name parts ≡ false → EachName parts
EachName-of_test [] h = tt
EachName-of_test (s ∷ rest) h = (
  record {
    not_blank = ground arith;
    not_dot = ground arith;
    not_dot_dot = ground arith;
    no_slash = Lacks-of_test slash s (ground arith);
  },
  EachName-of_test rest (ground arith),
)
