-- ===== src/KnowledgeBase/Chunk.antt =====
-- services/knowledge-base/src/chunk.rs. A text is the list of its characters, a character its code
-- point. What counts as white space is a parameter.
pub mod Fits
pub mod Ink
pub mod Keeps
use ai_engineering_boilerpla.Base.{
  ℕ, zero, suc, ◌+◌, Bool, true, false, not, ◌&&◌, ◌||◌, List, [], ◌∷◌, ◌++◌, map, keep, length,
  ltb, leb, eqb, if◌then◌else◌,
}

abbrev pub Text : Type 0
Text = List ℕ

abbrev pub max_chunk_chars_in_embedder_window : ℕ
max_chunk_chars_in_embedder_window = 300

abbrev pub line_feed : ℕ
line_feed = 0x0a

abbrev pub carriage_return : ℕ
carriage_return = 0x0d

abbrev pub space : ℕ
space = 0x20

abbrev pub is_full : Text → Bool
is_full [] = false
is_full (c ∷ cs) = true

abbrev pub flat_map {ℓ κ} : {A : Type ℓ} {B : Type κ} → (A → List B) → List A → List B
flat_map f [] = []
flat_map f (a ∷ as') = f a ++ flat_map f as'

-- The text up to the first character that satisfies `p`, and the texts between the later ones.
unfoldable pub split_on : (ℕ → Bool) → Text → Text × List Text
split_on p [] = ([], [])
split_on p (c ∷ cs) =
    let (first, others) = split_on p cs in if p c then ([], first ∷ others) else (c ∷ first, others)

abbrev pub strip_return : Text → Text
strip_return [] = []
strip_return (c ∷ []) = if eqb c carriage_return then [] else c ∷ []
strip_return (c ∷ d ∷ cs) = c ∷ strip_return (d ∷ cs)

abbrev pub terminated : Text → List Text → List Text
terminated l [] = if is_full l then l ∷ [] else []
terminated l (m ∷ ms) = strip_return l ∷ terminated m ms

-- `str::lines`: a line feed, or a carriage return and a line feed, ends a line; no line follows the
-- last of them if nothing does.
unfoldable pub lines : Text → List Text
unfolding split_on
lines text = let (first, others) = split_on (λ c. eqb c line_feed) text in terminated first others

-- The rest of a group that has room for `room` characters, and the groups after it.
abbrev pub groups : ℕ → Text → Text × List Text
groups room [] = ([], [])
groups zero (c ∷ cs) = let (group, later) = groups 299 cs in ([], (c ∷ group) ∷ later)
groups (suc room) (c ∷ cs) = let (group, later) = groups room cs in (c ∷ group, later)

unfoldable pub hard_split : Text → List Text
hard_split [] = []
hard_split (c ∷ cs) = let (group, later) = groups 299 cs in (c ∷ group) ∷ later

pub record Piece : Type 0 where
  pub text : Text
  pub starts_line : Bool

abbrev pub later_pieces : List Text → List Piece
later_pieces [] = []
later_pieces (t ∷ ts) = record { text = t; starts_line = false } ∷ later_pieces ts

abbrev pub pieces_of_line : List Text → List Piece
pieces_of_line [] = []
pieces_of_line (t ∷ ts) = record { text = t; starts_line = true } ∷ later_pieces ts

-- The variables of `split`.
pub record Packing : Type 0 where
  pub chunks : List Text
  pub current : Text
  pub current_chars : ℕ

-- The first `if` of the loop.
unfoldable pub make_room : ℕ → Packing → Packing
make_room piece_chars p =
    if ltb 0 p.current_chars
      && ltb max_chunk_chars_in_embedder_window (p.current_chars + 1 + piece_chars)
    then record { chunks = p.chunks ++ p.current ∷ []; current = []; current_chars = 0 }
    else p

-- The second.
unfoldable pub separated : Bool → Packing → Packing
separated starts_line p =
    if ltb 0 p.current_chars
    then record p {
      current = p.current ++ (if starts_line then line_feed else space) ∷ [];
      current_chars = p.current_chars + 1;
    }
    else p

unfoldable pub pack : Piece → Packing → Packing
unfolding make_room separated
pack piece p =
    let q = separated piece.starts_line (make_room (length piece.text) p) in
    record q {
      current = q.current ++ piece.text;
      current_chars = q.current_chars + length piece.text;
    }

unfoldable pub pack_all : List Piece → Packing → Packing
unfolding pack
pack_all [] p = p
pack_all (piece ∷ pieces) p = pack_all pieces (pack piece p)

abbrev pub packed : Packing → List Text
packed p = if ltb 0 p.current_chars then p.chunks ++ p.current ∷ [] else p.chunks

module _ (is_whitespace : ℕ → Bool) where
  abbrev pub trim_start : Text → Text
  trim_start [] = []
  trim_start (c ∷ cs) = let rest = trim_start cs in if is_whitespace c then rest else c ∷ cs

  abbrev pub trim_end : Text → Text
  trim_end [] = []
  trim_end (c ∷ cs) =
      let rest = trim_end cs in if is_whitespace c && not (is_full rest) then [] else c ∷ rest

  abbrev pub trim : Text → Text
  trim text = trim_start (trim_end text)

  unfoldable pub split_whitespace : Text → List Text
  unfolding split_on
  split_whitespace text =
      let (first, others) = split_on is_whitespace text in keep is_full (first ∷ others)

  -- '.', '!' or '?' before white space.
  abbrev pub ends_sentence : ℕ → Text → Bool
  ends_sentence c [] = false
  ends_sentence c (next ∷ cs) = (eqb c 0x2e || eqb c 0x21 || eqb c 0x3f) && is_whitespace next

  -- The slices of a line, the first and the later ones.
  abbrev pub slices : Text → Text × List Text
  slices [] = ([], [])
  slices (c ∷ cs) =
      let (first, others) = slices cs in
      if ends_sentence c cs then (c ∷ [], first ∷ others) else (c ∷ first, others)

  unfoldable pub sentences : Text → List Text
  sentences line = let (first, others) = slices line in keep is_full (map trim (first ∷ others))

  unfoldable pub fit_sentence : Text → List Text
  unfolding split_whitespace hard_split
  fit_sentence sentence =
      if leb (length sentence) max_chunk_chars_in_embedder_window
      then sentence ∷ []
      else flat_map hard_split (split_whitespace sentence)

  unfoldable pub fit : Text → List Text
  unfolding sentences fit_sentence
  fit line =
      if leb (length line) max_chunk_chars_in_embedder_window
      then line ∷ []
      else flat_map fit_sentence (sentences line)

  unfoldable pub pieces : Text → List Piece
  unfolding lines fit
  pieces text = flat_map (λ line. pieces_of_line (fit line)) (keep is_full (map trim (lines text)))

  unfoldable pub split : Text → List Text
  unfolding pieces pack_all
  split text =
      packed (pack_all (pieces text) (record { chunks = []; current = []; current_chars = 0 }))
