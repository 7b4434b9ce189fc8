-- ===== src/Engine/LlmNode/Spans/Offered.antt =====
-- What the spans of a message are (services/engine/src/executors/llm.rs).
use ai_engineering_boilerpla.Base.{
  ◌≤◌, String, ◌≡◌, false, List, [], ◌∷◌, ◌++◌, length, length-append, any, All, All-append, leb,
  ◌==◌, arith, Bool-cases, inl, inr,
}
use ai_engineering_boilerpla.Engine.LlmNode.Ask.{byte_len}
use ai_engineering_boilerpla.Engine.LlmNode.Spans.{
  Words, max_span_options, max_option_name_bytes, no_value_option, passed_over, with_span,
  with_spans, windows, words_of, spans, joined_by_space,
}

module _ (T : Words) where
  -- A span that a decider can be offered as an option beside the one for none of them.
  abbrev pub CanOffer : String → Type 0
  CanOffer s =
      (T.eq_ignore_ascii_case s no_value_option ≡ false) × (byte_len s ≤ max_option_name_bytes)

  abbrev pub AreDistinct : List String → Type 0
  AreDistinct [] = Unit
  AreDistinct (s ∷ ss) = All (λ t. (s == t) ≡ false) ss × AreDistinct ss

  abbrev pub AreSpans : List String → Type 0
  AreSpans found = (length found ≤ max_span_options) × All CanOffer found × AreDistinct found

  distinct_end :
      (found : List String) (s : String)
      → any (λ f. f == s) found ≡ false
      → AreDistinct found
      → AreDistinct (found ++ (s ∷ []))
  distinct_end [] s h d = (tt, tt)
  distinct_end (f ∷ fs) s h (d, ds) = (
    All-append (λ t. (f == t) ≡ false) fs (s ∷ []) d (ground (arith, h), tt),
    distinct_end fs s (ground (arith, h)) ds,
  )

  room :
      (found : List String) (s : String)
      → AreSpans found
      → leb max_span_options (length found) ≡ false
      → passed_over T found s ≡ false
      → AreSpans (found ++ (s ∷ []))
  unfolding passed_over
  room found s (n, all_fit, d) full over = (
    ground (arith, length-append found (s ∷ []), full),
    All-append CanOffer found (s ∷ []) all_fit ((ground (arith, over), ground (arith, over)), tt),
    distinct_end found s (ground (arith, over)) d,
  )

  with_span-AreSpans :
      (found : List String) (s : String) → AreSpans found → AreSpans (with_span T found s)
  unfolding with_span
  with_span-AreSpans found s h = elim (Bool-cases (leb max_span_options (length found))) [
    | inl t ↦ rw t h
    | inr t ↦ elim (Bool-cases (passed_over T found s)) [
      | inl o ↦ rw t (rw o h)
      | inr o ↦ rw t (rw o (room found s h t o))
    ]
  ]

  with_spans-AreSpans :
      (found : List String) (runs : List (List String))
      → AreSpans found
      → AreSpans (with_spans T found runs)
  unfolding with_spans
  with_spans-AreSpans found [] h = h
  with_spans-AreSpans found (run ∷ runs) h =
      with_spans-AreSpans (with_span T found (joined_by_space run)) runs
        (with_span-AreSpans found (joined_by_space run) h)

  -- Of any message at most 200 runs of words are offered, each once, within 64 bytes, and none that
  -- reads like the option for none of them.
  pub spans-AreSpans : (message : String) → AreSpans (spans T message)
  unfolding spans
  spans-AreSpans message =
      let words = words_of T message in
      with_spans-AreSpans _ (windows 3 words) (
        with_spans-AreSpans _ (windows 2 words)
          (with_spans-AreSpans [] (windows 1 words) (omega arith, tt, tt)))
