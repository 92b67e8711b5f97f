-- ===== src/Document/Packing.antt =====
-- The lines of a valid document, packed one by one: the loop keeps what it has covered and what is
-- still pending.
use mathlib.Core.Path.{subst}
use file_nest.Base.{
  ℕ, suc, ◌+◌, ◌-◌, ◌≤◌, ◌<◌, ◌≡◌, refl, sym, ap, ◌∙◌, inl, inr, true, false, List, [], ◌∷◌, Option,
  none, some, arith, ok, length, Bool-cases, ltb, leb,
}
use file_nest.FilePath.{Text}
use file_nest.Document.Contracts.{Document}
use file_nest.Document.Chunker.{
  ChunkIds, ChunkState, append_chunk, flush, process_line, process_lines, start_current, new_chunk,
}
use file_nest.Document.Slices.{total, Filled}
use file_nest.Document.Segments.{
  IsDocument, Covers, IsCovered, append_chunk-IsCovered, append_segments-IsCovered, appended,
}

module _ (uuid5 : ChunkIds) (d : Document) (max_chars : ℕ) (doc : IsDocument d)
    (pos : 1 ≤ max_chars) where
  IsCovered-as :
      (s t : ChunkState) {end place : ℕ}
      → s.chunks ≡ t.chunks
      → s.next_chunk_index ≡ t.next_chunk_index
      → end ≡ place
      → IsCovered uuid5 d max_chars s end
      → IsCovered uuid5 d max_chars t place
  IsCovered-as s t {end} {place} e f g h = record {
    covered =
        subst (λ o. Covers uuid5 d max_chars 0 0 o t.chunks) g
          (subst (Covers uuid5 d max_chars 0 0 end) e h.covered);
    counted = sym f ∙ h.counted ∙ ap length e;
  }

  -- the lines that are packed but not appended reach from a start to an end of at most `max_chars`
  pub record IsPacked (s : ChunkState) (start end line : ℕ) : Type 0 where
    pub covered : IsCovered uuid5 d max_chars s start
    pub not_empty : start < s.current_end
    pub reaches : s.current_end ≡ end
    pub bounded : end ≤ start + max_chars
    pub first_line : 1 ≤ s.current_start_line
    pub lines : s.current_start_line ≤ s.current_end_line
    pub before : s.current_end_line < line

  abbrev pub Pending : ChunkState → ℕ → ℕ → Option ℕ → Type 0
  Pending s end line none = IsCovered uuid5 d max_chars s end
  Pending s end line (some start) = IsPacked s start end line

  flush-current :
      (s : ChunkState) (start : ℕ)
      → s.current_start ≡ some start
      → flush uuid5 d max_chars s
        ≡ append_chunk uuid5 d max_chars s start s.current_end s.current_start_line
            s.current_end_line
  unfolding flush
  flush-current s start e = ground arith

  pub flush-Pending :
      (s : ChunkState) (end line : ℕ) (current : Option ℕ)
      → s.current_start ≡ current
      → end ≤ length d.normalized_text
      → Pending s end line current
      → (t : ChunkState) × (flush uuid5 d max_chars s ≡ ok t)
        × IsCovered uuid5 d max_chars t end
        × (t.offset ≡ s.offset)
  unfolding flush
  flush-Pending s end line none e fits p = (s, ground arith, p, refl)
  flush-Pending s end line (some start) e fits p =
      let (step, done) =
        append_chunk-IsCovered uuid5 d max_chars s start s.current_end s.current_start_line
          s.current_end_line doc p.covered p.not_empty (omega (arith, p.reaches, p.bounded))
          (omega (arith, p.reaches)) p.first_line p.lines in
      let t = appended uuid5 d max_chars s (
        new_chunk uuid5 d max_chars s.next_chunk_index start s.current_end s.current_start_line
          s.current_end_line) in
      (t, flush-current s start e ∙ step, IsCovered-as t t refl refl p.reaches done, refl)

  at_offset :
      (s : ChunkState) (offset end line : ℕ) (current : Option ℕ)
      → Pending s end line current
      → Pending (record s { offset = offset }) end line current
  at_offset s offset end line none p = IsCovered-as s _ refl refl refl p
  at_offset s offset end line (some start) p = record {
    covered = IsCovered-as s _ refl refl refl p.covered;
    not_empty = p.not_empty;
    reaches = p.reaches;
    bounded = p.bounded;
    first_line = p.first_line;
    lines = p.lines;
    before = p.before;
  }

  -- a state after a line: it is packed up to its offset, before the next line
  Goes : ChunkState → Text → ℕ → Type 0
  Goes s line line_number =
      (t : ChunkState) × (process_line uuid5 d max_chars s line_number line ≡ ok t)
      × (t.offset ≡ s.offset + length line)
      × Pending t t.offset (suc line_number) t.current_start

  long_line :
      (s : ChunkState) (line : Text) (line_number : ℕ)
      → 1 ≤ line_number
      → s.offset + length line ≤ length d.normalized_text
      → ltb max_chars (length line) ≡ true
      → Pending s s.offset line_number s.current_start
      → Goes s line line_number
  unfolding Goes process_line
  long_line s line line_number one fits long p =
      let moved = record s { offset = s.offset + length line } in
      let (flushed, step, done, place) =
        flush-Pending moved s.offset line_number s.current_start refl (omega arith)
          (at_offset s _ s.offset line_number s.current_start p) in
      let (t, run, last, cleared, kept) =
        append_segments-IsCovered uuid5 d max_chars (length line)
          (record flushed { current_start = none }) s.offset (s.offset + length line) line_number
          doc pos one fits (omega arith) (IsCovered-as flushed _ refl refl (ground arith) done) in
      (
        t,
        rw (process_line, long, step) run,
        kept ∙ place,
        subst (Pending t t.offset (suc line_number)) (sym cleared)
            (IsCovered-as t t refl refl (sym (kept ∙ place)) last),
      )

  first_line-IsPacked :
      (s : ChunkState) (line : Text) (line_number : ℕ)
      → 1 ≤ line_number
      → 1 ≤ length line
      → length line ≤ max_chars
      → IsCovered uuid5 d max_chars s s.offset
      → IsPacked
          (start_current uuid5 d max_chars
            (record s { offset = s.offset + length line })
            s.offset
            (s.offset + length line)
            line_number)
          s.offset
          (s.offset + length line)
          (suc line_number)
  first_line-IsPacked s line line_number one filled short done = record {
    covered = IsCovered-as s _ refl refl refl done;
    not_empty = omega arith;
    reaches = refl;
    bounded = omega arith;
    first_line = one;
    lines = omega arith;
    before = omega arith;
  }

  short_line :
      (s : ChunkState) (line : Text) (line_number : ℕ) (current : Option ℕ)
      → s.current_start ≡ current
      → 1 ≤ line_number
      → 1 ≤ length line
      → s.offset + length line ≤ length d.normalized_text
      → ltb max_chars (length line) ≡ false
      → Pending s s.offset line_number current
      → Goes s line line_number
  unfolding Goes process_line
  short_line s line line_number none e one filled fits short p = (
    start_current uuid5 d max_chars (record s { offset = s.offset + length line }) s.offset
        (s.offset + length line) line_number,
    rw (process_line, short, e) refl,
    refl,
    first_line-IsPacked s line line_number one filled (ground arith) p,
  )
  short_line s line line_number (some start) e one filled fits short p =
      let line_end = s.offset + length line in
      let moved = record s { offset = line_end } in
      elim (Bool-cases (leb (line_end - start) max_chars)) [
        | inl room ↦ (
          record moved { current_end = line_end; current_end_line = line_number },
          ground arith,
          refl,
          subst
              (Pending (record moved { current_end = line_end; current_end_line = line_number })
                line_end (suc line_number))
              (sym e)
              (record {
                covered = IsCovered-as s _ refl refl refl p.covered;
                not_empty = omega (arith, p.not_empty, p.reaches);
                reaches = refl;
                bounded = ground arith;
                first_line = p.first_line;
                lines = omega (arith, p.lines, p.before);
                before = omega arith;
              }),
        )
        | inr full ↦
            let (flushed, step, done, place) =
              flush-Pending moved s.offset line_number (some start) e (omega arith)
                (at_offset s line_end s.offset line_number (some start) p) in
            (
              start_current uuid5 d max_chars flushed s.offset line_end line_number,
              rw (process_line, short, e, full, step) refl,
              place,
              record {
                covered = IsCovered-as flushed _ refl refl refl done;
                not_empty = omega arith;
                reaches = sym place;
                bounded = ground arith;
                first_line = one;
                lines = omega arith;
                before = omega arith;
              },
            )
      ]

  process_line-Goes :
      (s : ChunkState) (line : Text) (line_number : ℕ)
      → 1 ≤ line_number
      → 1 ≤ length line
      → s.offset + length line ≤ length d.normalized_text
      → Pending s s.offset line_number s.current_start
      → Goes s line line_number
  process_line-Goes s line line_number one filled fits p =
      elim (Bool-cases (ltb max_chars (length line))) [
        | inl long ↦ long_line s line line_number one fits long p
        | inr short ↦ short_line s line line_number s.current_start refl one filled fits short p
      ]

  pub process_lines-goes :
      (s : ChunkState) (line_number : ℕ) (lines : List Text)
      → 1 ≤ line_number
      → Filled lines
      → s.offset + total lines ≤ length d.normalized_text
      → Pending s s.offset line_number s.current_start
      → (t : ChunkState) × (process_lines uuid5 d max_chars s line_number lines ≡ ok t)
        × (t.offset ≡ s.offset + total lines)
        × Pending t t.offset (line_number + length lines) t.current_start
  unfolding process_lines Goes
  process_lines-goes s line_number [] one filled fits p =
      (s, refl, omega arith, subst (λ n. Pending s s.offset n s.current_start) (omega arith) p)
  process_lines-goes s line_number (line ∷ lines) one filled fits p =
      let (next, step, moved, now) =
        process_line-Goes s line line_number one filled.0 (omega arith) p in
      let (t, run, sum, last) =
        process_lines-goes next (suc line_number) lines (omega arith) filled.1 (omega arith) now in
      (
        t,
        rw (process_lines, step) run,
        omega (arith, sum, moved),
        subst (λ n. Pending t t.offset n t.current_start) (omega arith) last,
      )
