-- ===== src/Engine/LlmNode/Material/Budget.antt =====
-- How much material one prompt shows (services/engine/src/executors/llm.rs).
use Prim.Native.String.append
use native.Mathlib.Nat.{mul-div-le, mul-le-mul_left, suc-mul, le_trans}
use ai_engineering_boilerpla.Base.{
  ℕ, zero, suc, ◌+◌, ◌-◌, ◌*◌, ◌≤◌, ◌≡◌, ap, ◌∙◌, max, String, List, [], ◌∷◌, length, skip, chain,
  arith, leb, Bool-cases, inl, inr,
}
use ai_engineering_boilerpla.EngineCore.LlmOutput.{ToolRecord, first_shown}
use ai_engineering_boilerpla.Engine.LlmNode.Material.{
  Material, Shown, shown, shown_of, shown_from, chars_each, char_count, take_chars, truncated_to,
  truncation_mark, appended_text, max_chars_of_tool_results_shown_at_once,
}

-- The characters that are allowed to what is shown.
unfoldable pub allowed : List Shown → ℕ
allowed [] = 0
allowed (s ∷ ss) = s.chars + allowed ss

skipped : {A : Type 0} (n : ℕ) (xs : List A) → length (skip n xs) ≡ length xs - n
skipped zero xs = omega arith
skipped (suc n) [] = omega arith
skipped (suc n) (x ∷ xs) = omega (arith, skipped n xs)

allowed-shown_from :
    (carried chars index : ℕ) (rs : List ToolRecord)
    → allowed (shown_from carried chars index rs) ≡ length rs * chars
unfolding allowed shown_from
allowed-shown_from carried chars index [] = omega arith
allowed-shown_from carried chars index (r ∷ rs) =
    ap (λ (t : ℕ). chars + t) (allowed-shown_from carried chars (suc index) rs)
    ∙ omega (arith, suc-mul (length rs) chars)

fair_share : (k : ℕ) → k * chars_each k ≤ max_chars_of_tool_results_shown_at_once
unfolding chars_each
fair_share zero = omega arith
fair_share (suc k) =
    let e : max (suc k) 1 ≡ suc k = omega arith in
    rw e (
      le_trans (mul-le-mul_left (suc k) (omega arith))
        (mul-div-le max_chars_of_tool_results_shown_at_once (suc k)))

char_count-take_chars : (n : ℕ) (s : String) → char_count (take_chars n s) ≤ n
unfolding char_count take_chars
char_count-take_chars zero s = omega arith
char_count-take_chars (suc n) String.[] = omega arith
char_count-take_chars (suc n) (String.◌∷◌ c s) = omega (arith, char_count-take_chars n s)

char_count-append : (s t : String) → char_count (appended_text s t) ≡ char_count s + char_count t
unfolding char_count
char_count-append String.[] t = ap char_count (append.nil t) ∙ omega arith
char_count-append (String.◌∷◌ c s) t =
    ap char_count (append.cons c s t) ∙ omega (arith, char_count-append s t)

char_count-truncated_to :
    (text : String) (n : ℕ) → char_count (truncated_to text n) ≤ n + char_count truncation_mark
unfolding truncated_to
char_count-truncated_to text n = elim (Bool-cases (leb (char_count text) n)) [
  | inl t ↦ rw t (ground (arith, t))
  | inr t ↦ rw t (
      omega (
        arith,
        char_count-append (take_chars n text) truncation_mark,
        char_count-take_chars n text,
      ))
]

-- The texts of the results in one prompt are allowed at most 48000 characters in all, and a text
-- that is cut has no more than its allowance and the mark.
pub shown-allowed :
    (m : Material)
    → (allowed (shown m) ≤ max_chars_of_tool_results_shown_at_once)
      × ((text : String) (n : ℕ)
          → char_count (truncated_to text n) ≤ n + char_count truncation_mark)
unfolding shown shown_of
shown-allowed m =
    let all = chain m.carried m.fetched in
    let first = first_shown all in
    let k = length all - first in
    (
      rw (allowed-shown_from (length m.carried) (chars_each k) first (skip first all))
          (rw (skipped first all) (fair_share k)),
      char_count-truncated_to,
    )
