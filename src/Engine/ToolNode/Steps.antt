-- ===== src/Engine/ToolNode/Steps.antt =====
-- The history of a run as steps of tool records, and what `chunk_by` recovers of it
-- (services/engine/src/executors/tool.rs, engine-core/src/llm_output.rs).
use ai_engineering_boilerpla.Base.{◌≡◌, refl, Bool, true, false, List, [], ◌∷◌, ◌++◌, flatten}
use ai_engineering_boilerpla.EngineCore.LlmOutput.{chunk_by, join_chunk}
use ai_engineering_boilerpla.EngineCore.LlmOutput.Shown.{Linked}

module _ {ℓ} {A : Type ℓ} (p : A → A → Bool) where
  -- The neighbours where one list ends and the next begins are not related.
  abbrev pub Apart : A → List (List A) → Type 0
  Apart a [] = Unit
  Apart a ([] ∷ steps) = Unit
  Apart a ((b ∷ bs) ∷ steps) = p a b ≡ false

  -- What stands last in a list that begins with `a`.
  abbrev pub ending : A → List A → A
  ending a [] = a
  ending a (b ∷ bs) = ending b bs

  -- Lists that are not empty, each of related neighbours, with unrelated ones between two lists.
  abbrev pub AreSteps : List (List A) → Type 0
  AreSteps [] = Unit
  AreSteps ([] ∷ steps) = ⊥
  AreSteps ((a ∷ as') ∷ steps) = Linked p (a ∷ as') × Apart (ending a as') steps × AreSteps steps

  -- A related element in front of a chunk joins it, and an unrelated one stands alone.
  join_chunk-related :
      (a b : A) (bs : List A) (cs : List (List A))
      → p a b ≡ true
      → join_chunk p a ((b ∷ bs) ∷ cs) ≡ (a ∷ b ∷ bs) ∷ cs
  unfolding join_chunk
  join_chunk-related a b bs cs e = rw e refl

  join_chunk-Apart :
      (a : A) (steps : List (List A)) → Apart a steps → join_chunk p a steps ≡ (a ∷ []) ∷ steps
  unfolding join_chunk
  join_chunk-Apart a [] h = refl
  join_chunk-Apart a ([] ∷ steps) h = refl
  join_chunk-Apart a ((b ∷ bs) ∷ steps) h = rw h refl

  step-chunk_by :
      (a : A) (as' rest : List A) (steps : List (List A))
      → Linked p (a ∷ as')
      → Apart (ending a as') steps
      → chunk_by p rest ≡ steps
      → chunk_by p ((a ∷ as') ++ rest) ≡ (a ∷ as') ∷ steps
  unfolding chunk_by
  step-chunk_by a [] rest steps h d e = rw e (join_chunk-Apart a steps d)
  step-chunk_by a (b ∷ bs) rest steps (h, hs) d e =
      rw (step-chunk_by b bs rest steps hs d e) (join_chunk-related a b bs steps h)

  -- Cutting the records of a history by step gives the steps of the history.
  pub chunk_by-flatten :
      (steps : List (List A)) → AreSteps steps → chunk_by p (flatten steps) ≡ steps
  unfolding chunk_by
  chunk_by-flatten [] h = refl
  chunk_by-flatten ([] ∷ steps) h = absurd h
  chunk_by-flatten ((a ∷ as') ∷ steps) (l, d, h) =
      step-chunk_by a as' (flatten steps) steps l d (chunk_by-flatten steps h)
