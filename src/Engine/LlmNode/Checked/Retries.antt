-- ===== src/Engine/LlmNode/Checked/Retries.antt =====
-- When asking a model fails (services/engine/src/executors/llm.rs).
use ai_engineering_boilerpla.Base.{String, ◌≡◌, refl, ◌∙◌, sym, ap, ◌↔◌}
use ai_engineering_boilerpla.Base.Results.{Result, ok, err}
use ai_engineering_boilerpla.Json.{Json}
use ai_engineering_boilerpla.Engine.LlmNode.{Services, LlmSerde, CompleteRequest, CompleteResponse}
use ai_engineering_boilerpla.Engine.LlmNode.Checked.{
  complete_with_retries, complete_again, or_again, or_fail,
}

module _ {World : Type 0} (V : Services World) (J : Json) (L : LlmSerde J) where
  -- Three calls in a row that all fail, the last with `e`.
  abbrev pub FailsThrice : CompleteRequest → World → String → World → Type 0
  FailsThrice request w e w' =
      (e1 e2 : String) × (w1 w2 : World) × (V.complete request w ≡ (err e1, w1))
      × (V.complete request w1 ≡ (err e2, w2))
      × (V.complete request w2 ≡ (err e, w'))

  failed_last :
      (p : Result String CompleteResponse × World) (e : String) (w : World)
      → or_fail V J L p ≡ (err e, w)
      → p ≡ (err e, w)
  unfolding or_fail
  failed_last (ok r, u) e w h = cc
  failed_last (err x, u) e w h = cc

  thrice :
      (request : CompleteRequest) (w w' : World) (e : String)
      → (p q : Result String CompleteResponse × World) → V.complete request w ≡ p
      → V.complete request p.1 ≡ q
      → or_again V J L
          (λ u. or_again V J L (λ v. or_fail V J L (V.complete request v)) (V.complete request u))
          p
        ≡ (err e, w')
      → FailsThrice request w e w'
  unfolding or_again
  thrice request w w' e (ok r, u) q a b h = cc
  thrice request w w' e (err x, u) (ok r, v) a b h =
      let later = λ (v' : World). or_fail V J L (V.complete request v') in
      let g = sym (ap (or_again V J L later) b) ∙ h in cc
  thrice request w w' e (err x, u) (err y, v) a b h = (
    x,
    y,
    u,
    v,
    a,
    b,
    failed_last (V.complete request v) e w'
        (sym (ap (or_again V J L (λ v'. or_fail V J L (V.complete request v'))) b) ∙ h),
  )

  -- Asking a model ends in an error exactly if three calls in a row fail, and the error is that of
  -- the third.
  pub complete_with_retries-FailsThrice :
      (request : CompleteRequest) (w w' : World) (e : String)
      → (complete_with_retries V J L request w ≡ (err e, w')) ↔ FailsThrice request w e w'
  unfolding complete_with_retries complete_again or_again or_fail
  complete_with_retries-FailsThrice request w w' e = (
    (λ h.
        thrice request w w' e (V.complete request w) (V.complete request (V.complete request w).1)
          refl refl h),
    (λ (e1, e2, w1, w2, a, b, c). rw (a, or_again) (rw (b, or_again) (rw (c, or_fail) refl))),
  )
