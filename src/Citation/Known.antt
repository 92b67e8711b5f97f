-- ===== src/Citation/Known.antt =====
-- What `known_chunks` of backend/app/citation_runtime.py holds after the loops over the contexts.
use mathlib.Core.List.{Memᴰ}
use file_nest.Base.{
  ℕ, ◌≡◌, refl, sym, ap, ◌∙◌, ◌⊎◌, inl, inr, Bool, true, false, not, ◌==◌, some, is_some, List, [],
  ◌∷◌, ◌++◌, codes, arith, Bool-cases,
}
use file_nest.FilePath.{Text, text_eq}
use file_nest.FilePath.Laws.{text_eq_iff}
use file_nest.Retrieval.{RetrievedChunk, RetrievalContext}
use file_nest.Citation.{find_chunk, when, chunk_reasons, know_chunks, know_contexts}

pub append-eq-nil {ℓ} : {A : Type ℓ} (xs ys : List A) → xs ++ ys ≡ [] → (xs ≡ []) × (ys ≡ [])
append-eq-nil [] ys h = (refl, h)
append-eq-nil (x ∷ xs) ys h = absurd (cc h)

pub when-eq-nil : (test : Bool) (reason : Text) → when test reason ≡ [] → test ≡ false
when-eq-nil true reason h = absurd (cc h)
when-eq-nil false reason h = refl

-- all chunks of the contexts
abbrev pub chunks_of : List RetrievalContext → List RetrievedChunk
chunks_of [] = []
chunks_of (context ∷ contexts) = context.chunks ++ chunks_of contexts

Memᴰ-append_left {ℓ} : {A : Type ℓ} {a : A} (xs ys : List A) → Memᴰ a xs → Memᴰ a (xs ++ ys)
Memᴰ-append_left [] ys m = elim m [ ]
Memᴰ-append_left (x ∷ xs) ys (Memᴰ.head e) = Memᴰ.head e
Memᴰ-append_left (x ∷ xs) ys (Memᴰ.tail m) = Memᴰ.tail (Memᴰ-append_left xs ys m)

Memᴰ-append_right {ℓ} : {A : Type ℓ} {a : A} (xs ys : List A) → Memᴰ a ys → Memᴰ a (xs ++ ys)
Memᴰ-append_right [] ys m = m
Memᴰ-append_right (x ∷ xs) ys m = Memᴰ.tail (Memᴰ-append_right xs ys m)

Memᴰ-append_cases {ℓ} :
    {A : Type ℓ} {a : A} (xs ys : List A) → Memᴰ a (xs ++ ys) → Memᴰ a xs ⊎ Memᴰ a ys
Memᴰ-append_cases [] ys m = inr m
Memᴰ-append_cases (x ∷ xs) ys (Memᴰ.head e) = inl (Memᴰ.head e)
Memᴰ-append_cases (x ∷ xs) ys (Memᴰ.tail m) = elim (Memᴰ-append_cases xs ys m) [
  | inl l ↦ inl (Memᴰ.tail l)
  | inr r ↦ inr r
]

chunk_first :
    (id : Text) (d : RetrievedChunk) (known : List RetrievedChunk)
    → text_eq d.citation_id id ≡ true
    → find_chunk id (d ∷ known) ≡ some d
unfolding find_chunk
chunk_first id d known e = rw e refl

chunk_earlier :
    (id : Text) (d : RetrievedChunk) (known : List RetrievedChunk)
    → text_eq d.citation_id id ≡ false
    → find_chunk id (d ∷ known) ≡ find_chunk id known
unfolding find_chunk
chunk_earlier id d known e = rw e refl

found_chunk :
    (id : Text) (d : RetrievedChunk) (known : List RetrievedChunk) (c : RetrievedChunk)
    → find_chunk id (d ∷ known) ≡ some c
    → ((c ≡ d) × (d.citation_id ≡ id)) ⊎ (find_chunk id known ≡ some c)
found_chunk id d known c h = elim (Bool-cases (text_eq d.citation_id id)) [
  | inl e ↦
      let first = chunk_first id d known e in
      inl (cc (h, first), (text_eq_iff d.citation_id id).0 e)
  | inr e ↦ inr (sym (chunk_earlier id d known e) ∙ h)
]

pub find_chunk-cited :
    (id : Text) (known : List RetrievedChunk) (c : RetrievedChunk)
    → find_chunk id known ≡ some c
    → c.citation_id ≡ id
find_chunk-cited id [] c h = absurd (unfold find_chunk in cc h)
find_chunk-cited id (d ∷ known) c h = elim (found_chunk id d known c h) [
  | inl e ↦ ap (λ (k : RetrievedChunk). k.citation_id) e.0 ∙ e.1
  | inr e ↦ find_chunk-cited id known c e
]

-- a chunk that is known stays known, unless its citation comes again
chunk_kept :
    (id : Text) (d : RetrievedChunk) (known : List RetrievedChunk) (c : RetrievedChunk)
    → find_chunk id known ≡ some c
    → is_some (find_chunk d.citation_id known) ≡ false
    → find_chunk id (d ∷ known) ≡ some c
chunk_kept id d known c h fresh = elim (Bool-cases (text_eq d.citation_id id)) [
  | inl e ↦
      let gone : is_some (find_chunk id known) ≡ false =
        rw (sym ((text_eq_iff d.citation_id id).0 e)) fresh in
      absurd (cc (ap is_some h, gone))
  | inr e ↦ chunk_earlier id d known e ∙ h
]

chunk_entered :
    (d : RetrievedChunk) (known : List RetrievedChunk)
    → find_chunk d.citation_id (d ∷ known) ≡ some d
chunk_entered d known =
    chunk_first d.citation_id d known ((text_eq_iff d.citation_id d.citation_id).1 refl)

module _ (workspace_id : ℕ) where
  new_chunk :
      (known : List RetrievedChunk) (c : RetrievedChunk)
      → chunk_reasons workspace_id known c ≡ []
      → (c.workspace_id ≡ workspace_id) × (is_some (find_chunk c.citation_id known) ≡ false)
  unfolding chunk_reasons
  new_chunk known c h =
      let (inside, fresh) =
        append-eq-nil (when (not (c.workspace_id == workspace_id)) (codes "cross_workspace_source"))
          (when (is_some (find_chunk c.citation_id known)) (codes "duplicate_citation_id")) h in
      let same : not (c.workspace_id == workspace_id) ≡ false =
        when-eq-nil (not (c.workspace_id == workspace_id)) (codes "cross_workspace_source")
          inside in
      (
        ground arith,
        when-eq-nil (is_some (find_chunk c.citation_id known)) (codes "duplicate_citation_id")
            fresh,
      )

  -- the known chunks come from the ones that were known, or from the loop
  chunks_from :
      (id : Text) (known chunks : List RetrievedChunk) (c : RetrievedChunk)
      → find_chunk id (know_chunks workspace_id known chunks).0 ≡ some c
      → (find_chunk id known ≡ some c) ⊎ Memᴰ c chunks
  unfolding know_chunks
  chunks_from id known [] c h = inl h
  chunks_from id known (d ∷ chunks) c h = elim (chunks_from id (d ∷ known) chunks c h) [
    | inr m ↦ inr (Memᴰ.tail m)
    | inl e ↦ elim (found_chunk id d known c e) [ inl s ↦ inr (Memᴰ.head s.0) | inr f ↦ inl f ]
  ]

  chunks_kept :
      (id : Text) (known chunks : List RetrievedChunk) (c : RetrievedChunk)
      → (know_chunks workspace_id known chunks).1 ≡ []
      → find_chunk id known ≡ some c
      → find_chunk id (know_chunks workspace_id known chunks).0 ≡ some c
  unfolding know_chunks
  chunks_kept id known [] c h f = f
  chunks_kept id known (d ∷ chunks) c h f =
      let (here, later) = append-eq-nil (chunk_reasons workspace_id known d) _ h in
      chunks_kept id (d ∷ known) chunks c later
        (chunk_kept id d known c f (new_chunk known d here).1)

  chunks_entered :
      (known chunks : List RetrievedChunk) (c : RetrievedChunk)
      → (know_chunks workspace_id known chunks).1 ≡ []
      → Memᴰ c chunks
      → (find_chunk c.citation_id (know_chunks workspace_id known chunks).0 ≡ some c)
        × (c.workspace_id ≡ workspace_id)
  unfolding know_chunks
  chunks_entered known [] c h m = elim m [ ]
  chunks_entered known (d ∷ chunks) c h (Memᴰ.head e) =
      let (here, later) = append-eq-nil (chunk_reasons workspace_id known d) _ h in
      rw e (
        chunks_kept d.citation_id (d ∷ known) chunks d later (chunk_entered d known),
        (new_chunk known d here).0,
      )
  chunks_entered known (d ∷ chunks) c h (Memᴰ.tail m) =
      let (here, later) = append-eq-nil (chunk_reasons workspace_id known d) _ h in
      chunks_entered (d ∷ known) chunks c later m

  -- what the loop over the contexts has found without a reason to refuse
  context_reasons :
      (known : List RetrievedChunk) (context : RetrievalContext) (contexts : List RetrievalContext)
      → (know_contexts workspace_id known (context ∷ contexts)).1 ≡ []
      → (context.workspace_id ≡ workspace_id)
        × ((know_chunks workspace_id known context.chunks).1 ≡ [])
        × ((know_contexts workspace_id (know_chunks workspace_id known context.chunks).0 contexts).1
            ≡ [])
  unfolding know_contexts
  context_reasons known context contexts h =
      let (inner, later) =
        append-eq-nil
          (when (not (context.workspace_id == workspace_id)) (codes "cross_workspace_context")
            ++ (know_chunks workspace_id known context.chunks).1)
          (know_contexts workspace_id (know_chunks workspace_id known context.chunks).0 contexts).1
          h in
      let (inside, here) =
        append-eq-nil
          (when (not (context.workspace_id == workspace_id)) (codes "cross_workspace_context"))
          (know_chunks workspace_id known context.chunks).1 inner in
      let same : not (context.workspace_id == workspace_id) ≡ false =
        when-eq-nil (not (context.workspace_id == workspace_id)) (codes "cross_workspace_context")
          inside in
      (ground arith, here, later)

  pub contexts_inside :
      (known : List RetrievedChunk) (contexts : List RetrievalContext) (context : RetrievalContext)
      → (know_contexts workspace_id known contexts).1 ≡ []
      → Memᴰ context contexts
      → context.workspace_id ≡ workspace_id
  contexts_inside known [] context h m = elim m [ ]
  contexts_inside known (x ∷ contexts) context h (Memᴰ.head e) =
      ap (λ (k : RetrievalContext). k.workspace_id) e ∙ (context_reasons known x contexts h).0
  contexts_inside known (x ∷ contexts) context h (Memᴰ.tail m) =
      contexts_inside (know_chunks workspace_id known x.chunks).0 contexts context
        (context_reasons known x contexts h).2 m

  contexts_from :
      (id : Text) (known : List RetrievedChunk) (contexts : List RetrievalContext)
      (c : RetrievedChunk)
      → find_chunk id (know_contexts workspace_id known contexts).0 ≡ some c
      → (find_chunk id known ≡ some c) ⊎ Memᴰ c (chunks_of contexts)
  unfolding know_contexts
  contexts_from id known [] c h = inl h
  contexts_from id known (x ∷ contexts) c h =
      elim (contexts_from id (know_chunks workspace_id known x.chunks).0 contexts c h) [
        | inr m ↦ inr (Memᴰ-append_right x.chunks (chunks_of contexts) m)
        | inl e ↦ elim (chunks_from id known x.chunks c e) [
          | inl f ↦ inl f
          | inr m ↦ inr (Memᴰ-append_left x.chunks (chunks_of contexts) m)
        ]
      ]

  -- a known chunk is one of the contexts'
  pub known_chunk :
      (id : Text) (contexts : List RetrievalContext) (c : RetrievedChunk)
      → find_chunk id (know_contexts workspace_id [] contexts).0 ≡ some c
      → Memᴰ c (chunks_of contexts)
  known_chunk id contexts c h = elim (contexts_from id [] contexts c h) [
    | inl e ↦ absurd (unfold find_chunk in cc e)
    | inr m ↦ m
  ]

  contexts_kept :
      (id : Text) (known : List RetrievedChunk) (contexts : List RetrievalContext)
      (c : RetrievedChunk)
      → (know_contexts workspace_id known contexts).1 ≡ []
      → find_chunk id known ≡ some c
      → find_chunk id (know_contexts workspace_id known contexts).0 ≡ some c
  unfolding know_contexts
  contexts_kept id known [] c h f = f
  contexts_kept id known (x ∷ contexts) c h f =
      let (_, here, later) = context_reasons known x contexts h in
      contexts_kept id (know_chunks workspace_id known x.chunks).0 contexts c later
        (chunks_kept id known x.chunks c here f)

  -- every chunk of the contexts is the one that its citation finds, and of the workspace
  pub contexts_entered :
      (known : List RetrievedChunk) (contexts : List RetrievalContext) (c : RetrievedChunk)
      → (know_contexts workspace_id known contexts).1 ≡ []
      → Memᴰ c (chunks_of contexts)
      → (find_chunk c.citation_id (know_contexts workspace_id known contexts).0 ≡ some c)
        × (c.workspace_id ≡ workspace_id)
  unfolding know_contexts
  contexts_entered known [] c h m = elim m [ ]
  contexts_entered known (x ∷ contexts) c h m =
      let (_, here, later) = context_reasons known x contexts h in
      elim (Memᴰ-append_cases x.chunks (chunks_of contexts) m) [
        | inl l ↦
            let (found, inside) = chunks_entered known x.chunks c here l in
            (
              contexts_kept c.citation_id (know_chunks workspace_id known x.chunks).0 contexts c
                  later found,
              inside,
            )
        | inr r ↦ contexts_entered (know_chunks workspace_id known x.chunks).0 contexts c later r
      ]
