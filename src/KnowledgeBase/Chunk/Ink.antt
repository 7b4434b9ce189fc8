-- ===== src/KnowledgeBase/Chunk/Ink.antt =====
-- The characters of a text that are not white space, through the splitting of its lines (services/knowledge-base/src/chunk.rs).
use ai_engineering_boilerpla.Base.{
  flatten, flatten-append, ℕ, zero, suc, ◌≡◌, refl, ap, sym, ◌∙◌, Bool, true, false, not, ◌&&◌,
  List, [], ◌∷◌, ◌++◌, map, keep, length, leb, Bool-cases, inl, inr, arith,
}
use mathlib.Core.Path.{ap₂}
use mathlib.Core.List.{append_assoc, append-nil}
use ai_engineering_boilerpla.KnowledgeBase.Chunk.{
  Text, max_chunk_chars_in_embedder_window, is_full, flat_map, groups, hard_split, Piece,
  later_pieces, pieces_of_line, split_on, split_whitespace, sentences, slices, ends_sentence,
  trim_start, trim_end, trim, fit_sentence, fit,
}

pub flatten-full : (ts : List Text) → flatten (keep is_full ts) ≡ flatten ts
flatten-full [] = refl
flatten-full ([] ∷ ts) = flatten-full ts
flatten-full ((c ∷ cs) ∷ ts) = ap (λ t. c ∷ (cs ++ t)) (flatten-full ts)

groups-flatten : (room : ℕ) (cs : Text) → (groups room cs).0 ++ flatten (groups room cs).1 ≡ cs
groups-flatten room [] = refl
groups-flatten zero (c ∷ cs) = ap (λ t. c ∷ t) (groups-flatten 299 cs)
groups-flatten (suc room) (c ∷ cs) = ap (λ t. c ∷ t) (groups-flatten room cs)

hard_split-flatten : (t : Text) → flatten (hard_split t) ≡ t
unfolding hard_split
hard_split-flatten [] = refl
hard_split-flatten (c ∷ cs) = ap (λ t. c ∷ t) (groups-flatten 299 cs)

abbrev pub text_of : List Piece → Text
text_of [] = []
text_of (p ∷ ps) = p.text ++ text_of ps

pub text_of-append : (ps qs : List Piece) → text_of (ps ++ qs) ≡ text_of ps ++ text_of qs
text_of-append [] qs = refl
text_of-append (p ∷ ps) qs =
    ap (λ t. p.text ++ t) (text_of-append ps qs)
    ∙ sym (append_assoc p.text (text_of ps) (text_of qs))

later_pieces-text : (ts : List Text) → text_of (later_pieces ts) ≡ flatten ts
later_pieces-text [] = refl
later_pieces-text (t ∷ ts) = ap (λ u. t ++ u) (later_pieces-text ts)

pieces_of_line-text : (ts : List Text) → text_of (pieces_of_line ts) ≡ flatten ts
pieces_of_line-text [] = refl
pieces_of_line-text (t ∷ ts) = ap (λ u. t ++ u) (later_pieces-text ts)

pub not_full : (t : Text) → is_full t ≡ false → t ≡ []
not_full [] h = refl
not_full (c ∷ cs) h = cc

module _ (is_whitespace : ℕ → Bool) where
  -- The characters that are not white space, in their order.
  unfoldable pub ink : Text → Text
  ink t = keep (λ c. not (is_whitespace c)) t

  pub ink-append : (t u : Text) → ink (t ++ u) ≡ ink t ++ ink u
  unfolding ink
  ink-append [] u = refl
  ink-append (c ∷ cs) u = elim (Bool-cases (is_whitespace c)) [
    | inl e ↦ rw e (ink-append cs u)
    | inr e ↦ rw e (ap (λ t. c ∷ t) (ink-append cs u))
  ]

  pub ink-join :
      (t t' u u' : Text) → ink t ≡ ink t' → ink u ≡ ink u' → ink (t ++ u) ≡ ink (t' ++ u')
  ink-join t t' u u' e f = ink-append t u ∙ ap₂ (λ a b. a ++ b) e f ∙ sym (ink-append t' u')

  ink-cons : (c : ℕ) (t u : Text) → ink t ≡ ink u → ink (c ∷ t) ≡ ink (c ∷ u)
  ink-cons c t u e = ink-join (c ∷ []) (c ∷ []) t u refl e

  pub ink-blank : (c : ℕ) (t : Text) → is_whitespace c ≡ true → ink (c ∷ t) ≡ ink t
  unfolding ink
  ink-blank c t e = rw e refl

  pub split_on-ink :
      (p : ℕ → Bool)
      → ((c : ℕ) → p c ≡ true → is_whitespace c ≡ true)
      → (cs : Text) → ink ((split_on p cs).0 ++ flatten (split_on p cs).1) ≡ ink cs
  unfolding split_on
  split_on-ink p h [] = refl
  split_on-ink p h (c ∷ cs) =
      let rest = split_on-ink p h cs in
      elim (Bool-cases (p c)) [
        | inl e ↦ rw e (rest ∙ sym (ink-blank c cs (h c e)))
        | inr e ↦ rw e (ink-cons c _ cs rest)
      ]

  trim_start-ink : (t : Text) → ink (trim_start is_whitespace t) ≡ ink t
  trim_start-ink [] = refl
  trim_start-ink (c ∷ cs) = elim (Bool-cases (is_whitespace c)) [
    | inl e ↦ rw e (trim_start-ink cs ∙ sym (ink-blank c cs e))
    | inr e ↦ rw e refl
  ]

  trim_end-ink : (t : Text) → ink (trim_end is_whitespace t) ≡ ink t
  trim_end-ink [] = refl
  trim_end-ink (c ∷ cs) =
      let rest = trim_end-ink cs in
      elim (Bool-cases (is_whitespace c && not (is_full (trim_end is_whitespace cs)))) [
        | inl e ↦ rw e (
            ap ink (sym (not_full (trim_end is_whitespace cs) (ground (arith, e))))
            ∙ rest
            ∙ sym (ink-blank c cs (ground (arith, e))))
        | inr e ↦ rw e (ink-cons c (trim_end is_whitespace cs) cs rest)
      ]

  trim-ink : (t : Text) → ink (trim is_whitespace t) ≡ ink t
  trim-ink t = trim_start-ink (trim_end is_whitespace t) ∙ trim_end-ink t

  pub trimmed-ink :
      (ts : List Text) → ink (flatten (map (trim is_whitespace) ts)) ≡ ink (flatten ts)
  trimmed-ink [] = refl
  trimmed-ink (t ∷ ts) =
      ink-join (trim is_whitespace t) t _ (flatten ts) (trim-ink t) (trimmed-ink ts)

  slices-flatten : (t : Text) → (slices is_whitespace t).0 ++ flatten (slices is_whitespace t).1 ≡ t
  slices-flatten [] = refl
  slices-flatten (c ∷ cs) =
      let rest = slices-flatten cs in
      elim (Bool-cases (ends_sentence is_whitespace c cs)) [
        | inl e ↦ rw e (ap (λ t. c ∷ t) rest)
        | inr e ↦ rw e (ap (λ t. c ∷ t) rest)
      ]

  sentences-ink : (line : Text) → ink (flatten (sentences is_whitespace line)) ≡ ink line
  unfolding sentences
  sentences-ink line =
      let (first, others) = slices is_whitespace line in
      ap ink (flatten-full (map (trim is_whitespace) (first ∷ others)))
      ∙ trimmed-ink (first ∷ others)
      ∙ ap ink (slices-flatten line)

  split_whitespace-ink : (t : Text) → ink (flatten (split_whitespace is_whitespace t)) ≡ ink t
  unfolding split_whitespace
  split_whitespace-ink t =
      let (first, others) = split_on is_whitespace t in
      ap ink (flatten-full (first ∷ others)) ∙ split_on-ink is_whitespace (λ c e. e) t

  flat_map-ink :
      (f : Text → List Text)
      → ((t : Text) → ink (flatten (f t)) ≡ ink t)
      → (ts : List Text) → ink (flatten (flat_map f ts)) ≡ ink (flatten ts)
  flat_map-ink f h [] = refl
  flat_map-ink f h (t ∷ ts) =
      ap ink (flatten-append (f t) (flat_map f ts))
      ∙ ink-join (flatten (f t)) t (flatten (flat_map f ts)) (flatten ts) (h t)
          (flat_map-ink f h ts)

  fit_sentence-ink : (t : Text) → ink (flatten (fit_sentence is_whitespace t)) ≡ ink t
  unfolding fit_sentence
  fit_sentence-ink t = elim (Bool-cases (leb (length t) max_chunk_chars_in_embedder_window)) [
    | inl e ↦ rw e (ap ink (append-nil t))
    | inr e ↦ rw e (
        flat_map-ink hard_split (λ w. ap ink (hard_split-flatten w))
          (split_whitespace is_whitespace t)
        ∙ split_whitespace-ink t)
  ]

  fit-ink : (line : Text) → ink (flatten (fit is_whitespace line)) ≡ ink line
  unfolding fit
  fit-ink line = elim (Bool-cases (leb (length line) max_chunk_chars_in_embedder_window)) [
    | inl e ↦ rw e (ap ink (append-nil line))
    | inr e ↦ rw e (
        flat_map-ink (fit_sentence is_whitespace) fit_sentence-ink (sentences is_whitespace line)
        ∙ sentences-ink line)
  ]

  pub lines_text-ink :
      (ls : List Text)
      → ink (text_of (flat_map (λ line. pieces_of_line (fit is_whitespace line)) ls))
        ≡ ink (flatten ls)
  lines_text-ink [] = refl
  lines_text-ink (l ∷ ls) =
      ap ink (text_of-append (pieces_of_line (fit is_whitespace l)) _)
      ∙ ink-join (text_of (pieces_of_line (fit is_whitespace l))) l _ (flatten ls)
          (ap ink (pieces_of_line-text (fit is_whitespace l)) ∙ fit-ink l) (lines_text-ink ls)
