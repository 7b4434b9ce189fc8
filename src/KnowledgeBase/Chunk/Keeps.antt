-- ===== src/KnowledgeBase/Chunk/Keeps.antt =====
-- No character of a text that is not white space is lost (services/knowledge-base/src/chunk.rs).
use ai_engineering_boilerpla.Base.{
  flatten, flatten-append, ℕ, ◌+◌, ◌≡◌, refl, ap, sym, ◌∙◌, Bool, true, false, ◌&&◌, List, [], ◌∷◌,
  ◌++◌, map, keep, length, ltb, eqb, if◌then◌else◌, Bool-cases, inl, inr, arith,
}
use mathlib.Core.List.{append_assoc, append-nil}
use ai_engineering_boilerpla.KnowledgeBase.Chunk.{
  Text, line_feed, space, carriage_return, max_chunk_chars_in_embedder_window, is_full, Piece,
  Packing, make_room, separated, pack, pack_all, packed, split_on, strip_return, terminated, trim,
  lines, pieces, split,
}
use ai_engineering_boilerpla.KnowledgeBase.Chunk.Fits.{IsPacked, nothing_packed, pieces-IsPacked}
use ai_engineering_boilerpla.KnowledgeBase.Chunk.Ink.{
  text_of, ink, ink-append, ink-join, ink-blank, split_on-ink, trimmed-ink, lines_text-ink,
  flatten-full,
}

blank_of :
    (is_whitespace : ℕ → Bool) (c n : ℕ)
    → eqb c n ≡ true
    → is_whitespace n ≡ true
    → is_whitespace c ≡ true
blank_of is_whitespace c n e h = let q : c ≡ n = ground (arith, e) in ap is_whitespace q ∙ h

-- The line breaks and the blank of ASCII are white space.
module _ (is_whitespace : ℕ → Bool) (feed : is_whitespace line_feed ≡ true)
    (return : is_whitespace carriage_return ≡ true) (blank : is_whitespace space ≡ true) where
  strip_return-ink : (t : Text) → ink is_whitespace (strip_return t) ≡ ink is_whitespace t
  strip_return-ink [] = refl
  strip_return-ink (c ∷ []) = elim (Bool-cases (eqb c carriage_return)) [
    | inl e ↦
        rw e
          (sym (ink-blank is_whitespace c [] (blank_of is_whitespace c carriage_return e return)))
    | inr e ↦ rw e refl
  ]
  strip_return-ink (c ∷ d ∷ cs) =
      ink-join is_whitespace (c ∷ []) (c ∷ []) (strip_return (d ∷ cs)) (d ∷ cs) refl
        (strip_return-ink (d ∷ cs))

  terminated-ink :
      (l : Text) (ms : List Text)
      → ink is_whitespace (flatten (terminated l ms)) ≡ ink is_whitespace (l ++ flatten ms)
  terminated-ink [] [] = refl
  terminated-ink (c ∷ cs) [] = refl
  terminated-ink l (m ∷ ms) =
      ink-join is_whitespace (strip_return l) l (flatten (terminated m ms)) (m ++ flatten ms)
        (strip_return-ink l) (terminated-ink m ms)

  lines-ink : (t : Text) → ink is_whitespace (flatten (lines t)) ≡ ink is_whitespace t
  unfolding lines
  lines-ink t =
      let (first, others) = split_on (λ c. eqb c line_feed) t in
      terminated-ink first others
      ∙ split_on-ink is_whitespace (λ c. eqb c line_feed)
          (λ c e. blank_of is_whitespace c line_feed e feed) t

  pieces-ink :
      (t : Text) → ink is_whitespace (text_of (pieces is_whitespace t)) ≡ ink is_whitespace t
  unfolding pieces
  pieces-ink t =
      lines_text-ink is_whitespace (keep is_full (map (trim is_whitespace) (lines t)))
      ∙ ap (ink is_whitespace) (flatten-full (map (trim is_whitespace) (lines t)))
      ∙ trimmed-ink is_whitespace (lines t)
      ∙ lines-ink t

  -- What has been packed so far.
  abbrev packed_ink : Packing → Text
  packed_ink p = ink is_whitespace (flatten p.chunks ++ p.current)

  make_room-ink : (n : ℕ) (p : Packing) → packed_ink (make_room n p) ≡ packed_ink p
  unfolding make_room
  make_room-ink n p =
      elim (Bool-cases (
        ltb 0 p.current_chars
        && ltb max_chunk_chars_in_embedder_window (p.current_chars + 1 + n))) [
          | inl e ↦ rw e (
              ap (ink is_whitespace) (
                append-nil (flatten (p.chunks ++ p.current ∷ []))
                ∙ flatten-append p.chunks (p.current ∷ [])
                ∙ ap (λ t. flatten p.chunks ++ t) (append-nil p.current)))
          | inr e ↦ rw e refl
        ]

  separator-blank : (b : Bool) → is_whitespace (if b then line_feed else space) ≡ true
  separator-blank true = feed
  separator-blank false = blank

  ink-nil : ink is_whitespace [] ≡ []
  unfolding ink
  ink-nil = refl

  separated-ink : (b : Bool) (p : Packing) → packed_ink (separated b p) ≡ packed_ink p
  unfolding separated
  separated-ink b p = elim (Bool-cases (ltb 0 p.current_chars)) [
    | inl e ↦ rw e (
        ink-join is_whitespace (flatten p.chunks) (flatten p.chunks)
          (p.current ++ (if b then line_feed else space) ∷ []) p.current refl
          (ink-append is_whitespace p.current ((if b then line_feed else space) ∷ [])
            ∙ ap (λ t. ink is_whitespace p.current ++ t)
                (ink-blank is_whitespace (if b then line_feed else space) [] (separator-blank b))
            ∙ ap (λ t. ink is_whitespace p.current ++ t) (ink-nil)
            ∙ append-nil (ink is_whitespace p.current)))
    | inr e ↦ rw e refl
  ]

  pack-ink :
      (piece : Piece) (p : Packing)
      → packed_ink (pack piece p) ≡ packed_ink p ++ ink is_whitespace piece.text
  unfolding pack
  pack-ink piece p =
      let q = separated piece.starts_line (make_room (length piece.text) p) in
      ap (ink is_whitespace) (sym (append_assoc (flatten q.chunks) q.current piece.text))
      ∙ ink-append is_whitespace (flatten q.chunks ++ q.current) piece.text
      ∙ ap (λ t. t ++ ink is_whitespace piece.text)
          (separated-ink piece.starts_line (make_room (length piece.text) p)
            ∙ make_room-ink (length piece.text) p)

  pack_all-ink :
      (ps : List Piece) (p : Packing)
      → packed_ink (pack_all ps p) ≡ packed_ink p ++ ink is_whitespace (text_of ps)
  unfolding pack_all ink
  pack_all-ink [] p = sym (append-nil (packed_ink p))
  pack_all-ink (x ∷ xs) p =
      pack_all-ink xs (pack x p)
      ∙ ap (λ t. t ++ ink is_whitespace (text_of xs)) (pack-ink x p)
      ∙ append_assoc (packed_ink p) (ink is_whitespace x.text) (ink is_whitespace (text_of xs))
      ∙ ap (λ t. packed_ink p ++ t) (sym (ink-append is_whitespace x.text (text_of xs)))

  nothing_left : (t : Text) → length t ≡ 0 → t ≡ []
  nothing_left [] e = refl
  nothing_left (c ∷ cs) e = absurd (omega (arith, e))

  packed-ink : (p : Packing) → IsPacked p → ink is_whitespace (flatten (packed p)) ≡ packed_ink p
  packed-ink p h = elim (Bool-cases (ltb 0 p.current_chars)) [
    | inl e ↦ rw e (
        ap (ink is_whitespace) (
          flatten-append p.chunks (p.current ∷ [])
          ∙ ap (λ t. flatten p.chunks ++ t) (append-nil p.current)))
    | inr e ↦ rw e (
        ap (ink is_whitespace) (
          sym (append-nil (flatten p.chunks))
          ∙ ap (λ t. flatten p.chunks ++ t)
              (sym (nothing_left p.current (ground (arith, e, h.counted))))))
  ]

  -- Where line feed, carriage return and blank are white space: the chunks of a text have, one after
  -- the other, exactly its characters that are not white space, in their order.
  pub split-ink :
      (text : Text)
      → ink is_whitespace (flatten (split is_whitespace text)) ≡ ink is_whitespace text
  unfolding split ink
  split-ink text =
      packed-ink (pack_all (pieces is_whitespace text) nothing_packed)
        (pieces-IsPacked is_whitespace text)
      ∙ pack_all-ink (pieces is_whitespace text) nothing_packed
      ∙ pieces-ink text
