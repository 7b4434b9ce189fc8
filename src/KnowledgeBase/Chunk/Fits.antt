-- ===== src/KnowledgeBase/Chunk/Fits.antt =====
-- Every chunk fits the embedder's window (services/knowledge-base/src/chunk.rs).
use ai_engineering_boilerpla.Base.{
  ℕ, zero, suc, ◌+◌, ◌≤◌, ◌≡◌, refl, Bool, true, ◌&&◌, List, [], ◌∷◌, ◌++◌, map, keep, length, ltb,
  leb, if◌then◌else◌, All, All-append, length-append, Bool-cases, inl, inr, arith,
}
use ai_engineering_boilerpla.KnowledgeBase.Chunk.{
  Text, line_feed, space, max_chunk_chars_in_embedder_window, is_full, flat_map, groups, hard_split,
  Piece, later_pieces, pieces_of_line, Packing, make_room, separated, pack, pack_all, packed,
  split_on, split_whitespace, sentences, slices, trim, fit_sentence, fit, lines, pieces, split,
}

-- Not empty, and within the window.
abbrev pub Fitting : Text → Type 0
Fitting t = (1 ≤ length t) × (length t ≤ max_chunk_chars_in_embedder_window)

abbrev IsFull : Text → Type 0
IsFull t = is_full t ≡ true

full-length : (t : Text) → IsFull t → 1 ≤ length t
full-length [] h = cc
full-length (c ∷ cs) h = omega arith

keep-IsFull : (ts : List Text) → All IsFull (keep is_full ts)
keep-IsFull [] = tt
keep-IsFull ([] ∷ ts) = keep-IsFull ts
keep-IsFull ((c ∷ cs) ∷ ts) = (refl, keep-IsFull ts)

flat_map-All :
    {A B : Type 0} (P : A → Type 0) (Q : B → Type 0) (f : A → List B)
    → ((a : A) → P a → All Q (f a))
    → (xs : List A) → All P xs
    → All Q (flat_map f xs)
flat_map-All P Q f h [] k = tt
flat_map-All P Q f h (x ∷ xs) (a, b) =
    All-append Q (f x) (flat_map f xs) (h x a) (flat_map-All P Q f h xs b)

groups-Fitting :
    (room : ℕ) (cs : Text) → (length (groups room cs).0 ≤ room) × All Fitting (groups room cs).1
groups-Fitting room [] = (omega arith, tt)
groups-Fitting zero (c ∷ cs) =
    let (a, b) = groups-Fitting 299 cs in (omega arith, ((omega arith, omega (arith, a)), b))
groups-Fitting (suc room) (c ∷ cs) = let (a, b) = groups-Fitting room cs in (omega (arith, a), b)

hard_split-Fitting : (t : Text) → All Fitting (hard_split t)
unfolding hard_split
hard_split-Fitting [] = tt
hard_split-Fitting (c ∷ cs) =
    let (a, b) = groups-Fitting 299 cs in ((omega arith, omega (arith, a)), b)

short-Fitting :
    (t : Text) → IsFull t → leb (length t) max_chunk_chars_in_embedder_window ≡ true → Fitting t
short-Fitting t h k = (full-length t h, ground (arith, k))

module _ (is_whitespace : ℕ → Bool) where
  split_whitespace-IsFull : (t : Text) → All IsFull (split_whitespace is_whitespace t)
  unfolding split_whitespace
  split_whitespace-IsFull t =
      keep-IsFull ((split_on is_whitespace t).0 ∷ (split_on is_whitespace t).1)

  fit_sentence-Fitting : (t : Text) → IsFull t → All Fitting (fit_sentence is_whitespace t)
  unfolding fit_sentence
  fit_sentence-Fitting t h = elim (Bool-cases (leb (length t) max_chunk_chars_in_embedder_window)) [
    | inl e ↦ rw e (short-Fitting t h e, tt)
    | inr e ↦ rw e (
        flat_map-All IsFull Fitting hard_split (λ w k. hard_split-Fitting w)
          (split_whitespace is_whitespace t) (split_whitespace-IsFull t))
  ]

  sentences-IsFull : (line : Text) → All IsFull (sentences is_whitespace line)
  unfolding sentences
  sentences-IsFull line =
      keep-IsFull
        (map (trim is_whitespace) ((slices is_whitespace line).0 ∷ (slices is_whitespace line).1))

  fit-Fitting : (line : Text) → IsFull line → All Fitting (fit is_whitespace line)
  unfolding fit
  fit-Fitting line h = elim (Bool-cases (leb (length line) max_chunk_chars_in_embedder_window)) [
    | inl e ↦ rw e (short-Fitting line h e, tt)
    | inr e ↦ rw e (
        flat_map-All IsFull Fitting (fit_sentence is_whitespace) fit_sentence-Fitting
          (sentences is_whitespace line) (sentences-IsFull line))
  ]

abbrev FittingPiece : Piece → Type 0
FittingPiece p = Fitting p.text

later_pieces-Fitting : (ts : List Text) → All Fitting ts → All FittingPiece (later_pieces ts)
later_pieces-Fitting [] h = tt
later_pieces-Fitting (t ∷ ts) (a, b) = (a, later_pieces-Fitting ts b)

pieces_of_line-Fitting : (ts : List Text) → All Fitting ts → All FittingPiece (pieces_of_line ts)
pieces_of_line-Fitting [] h = tt
pieces_of_line-Fitting (t ∷ ts) (a, b) = (a, later_pieces-Fitting ts b)

pub record IsPacked (p : Packing) : Type 0 where
  pub counted : p.current_chars ≡ length p.current
  pub within : p.current_chars ≤ max_chunk_chars_in_embedder_window
  pub chunks : All Fitting p.chunks

make_room-IsPacked :
    (n : ℕ) (p : Packing)
    → n ≤ max_chunk_chars_in_embedder_window
    → IsPacked p
    → let q = make_room n p in
      IsPacked q
      × (1 ≤ q.current_chars → q.current_chars + 1 + n ≤ max_chunk_chars_in_embedder_window)
unfolding make_room
make_room-IsPacked n p l h =
    elim (Bool-cases
      (ltb 0 p.current_chars && ltb max_chunk_chars_in_embedder_window (p.current_chars + 1 + n))) [
        | inl e ↦ rw e (
          record {
            counted = refl;
            within = omega arith;
            chunks =
                All-append Fitting p.chunks (p.current ∷ []) h.chunks
                  ((ground (arith, e, h.counted), ground (arith, h.within, h.counted)), tt);
          },
          (λ k. absurd (omega (arith, k))),
        )
        | inr e ↦ rw e (h, (λ k. ground (arith, e, k)))
      ]

pack-IsPacked :
    (piece : Piece) (p : Packing) → FittingPiece piece → IsPacked p → IsPacked (pack piece p)
unfolding pack separated
pack-IsPacked piece p (a, b) h =
    let (k, room) = make_room-IsPacked (length piece.text) p b h in
    joined (make_room (length piece.text) p) k room
  where
    joined :
        (q : Packing)
        → IsPacked q
        → (1 ≤ q.current_chars
            → q.current_chars + 1 + length piece.text ≤ max_chunk_chars_in_embedder_window)
        → let r = separated piece.starts_line q in
          IsPacked (record r {
            current = r.current ++ piece.text;
            current_chars = r.current_chars + length piece.text;
          })
    joined q k room = elim (Bool-cases (ltb 0 q.current_chars)) [
      | inl e ↦ rw e (record {
        counted = omega (
          arith,
          k.counted,
          length-append (q.current ++ (if piece.starts_line then line_feed else space) ∷ [])
              piece.text,
          length-append q.current ((if piece.starts_line then line_feed else space) ∷ []),
        );
        within = omega (arith, room (ground (arith, e)));
        chunks = k.chunks;
      })
      | inr e ↦ rw e (record {
        counted = omega (arith, k.counted, length-append q.current piece.text);
        within = ground (arith, e, b);
        chunks = k.chunks;
      })
    ]

pack_all-IsPacked :
    (ps : List Piece) (p : Packing) → All FittingPiece ps → IsPacked p → IsPacked (pack_all ps p)
unfolding pack_all
pack_all-IsPacked [] p h k = k
pack_all-IsPacked (x ∷ xs) p (a, b) k = pack_all-IsPacked xs (pack x p) b (pack-IsPacked x p a k)

packed-Fitting : (p : Packing) → IsPacked p → All Fitting (packed p)
packed-Fitting p h = elim (Bool-cases (ltb 0 p.current_chars)) [
  | inl e ↦ rw e (
      All-append Fitting p.chunks (p.current ∷ []) h.chunks
        ((ground (arith, e, h.counted), ground (arith, h.within, h.counted)), tt))
  | inr e ↦ rw e h.chunks
]

pieces-Fitting :
    (is_whitespace : ℕ → Bool) (text : Text) → All FittingPiece (pieces is_whitespace text)
unfolding pieces
pieces-Fitting is_whitespace text =
    flat_map-All IsFull FittingPiece (λ line. pieces_of_line (fit is_whitespace line))
      (λ line h. pieces_of_line-Fitting (fit is_whitespace line) (fit-Fitting is_whitespace line h))
      (keep is_full (map (trim is_whitespace) (lines text)))
      (keep-IsFull (map (trim is_whitespace) (lines text)))

abbrev pub nothing_packed : Packing
nothing_packed = record { chunks = []; current = []; current_chars = 0 }

pub pieces-IsPacked :
    (is_whitespace : ℕ → Bool) (text : Text)
    → IsPacked (pack_all (pieces is_whitespace text) nothing_packed)
pieces-IsPacked is_whitespace text =
    pack_all-IsPacked (pieces is_whitespace text) nothing_packed (pieces-Fitting is_whitespace text)
      (record { counted = refl; within = omega arith; chunks = tt })

-- Every chunk of a text has at least one and at most 300 characters.
pub split-Fitting :
    (is_whitespace : ℕ → Bool) (text : Text) → All Fitting (split is_whitespace text)
unfolding split
split-Fitting is_whitespace text =
    packed-Fitting (pack_all (pieces is_whitespace text) nothing_packed)
      (pieces-IsPacked is_whitespace text)
