-- ===== src/Tests/Chunk.antt =====
-- The splitting of a text at a concrete one.
use ai_engineering_boilerpla.Base.{
  flatten, ℕ, zero, suc, ◌≡◌, refl, Bool, ◌||◌, [], ◌∷◌, ◌++◌, All, map, length, eqb,
}
use ai_engineering_boilerpla.KnowledgeBase.Chunk.{Text, split}
use ai_engineering_boilerpla.KnowledgeBase.Chunk.Fits.{Fitting, split-Fitting}
use ai_engineering_boilerpla.KnowledgeBase.Chunk.Ink.{ink}
use ai_engineering_boilerpla.KnowledgeBase.Chunk.Keeps.{split-ink}

abbrev is_blank : ℕ → Bool
is_blank c = eqb c 0x20 || eqb c 0x0a || eqb c 0x0d

abbrev times : ℕ → ℕ → Text
times zero c = []
times (suc n) c = c ∷ times n c

-- A word of 302 letters, another word, and a second line.
abbrev long_text : Text
long_text = times 302 0x61 ++ 0x20 ∷ 0x62 ∷ 0x0a ∷ 0x63 ∷ []

split_long : map length (split is_blank long_text) ≡ 300 ∷ 6 ∷ []
unfolding split
split_long = refl

split-Fitting_example : All Fitting (split is_blank long_text)
split-Fitting_example = split-Fitting is_blank long_text

split-ink_example : ink is_blank (flatten (split is_blank long_text)) ≡ ink is_blank long_text
split-ink_example = split-ink is_blank refl refl refl long_text
