-- ===== src/EngineCore/FanIn/Results.antt =====
-- The results that a barrier collects: branches may report in any order, each result lands in its
-- branch's place, and the barrier waits until no place holds null (engine-core/src/step.rs).
use ai_engineering_boilerpla.Base.{
  ℕ, zero, suc, ◌+◌, ◌<◌, ◌≡◌, ◌≢◌, refl, ap, ◌∙◌, sym, Bool, true, false, Option, none, some, List,
  [], ◌∷◌, arith, of_some_eq, eqb, if◌then◌else◌, All,
}
use mathlib.Core.Path.{ap₂}
use native.Mathlib.Decide.{dec_lt}
use ai_engineering_boilerpla.Json.{Value, Items, nil, cons}
use ai_engineering_boilerpla.EngineCore.FanIn.{nulls, count, put}

-- The result at a place; past the end there is none.
unfoldable pub result_at : Items → ℕ → Option Value
result_at nil i = none
result_at (cons v vs) zero = some v
result_at (cons v vs) (suc i) = result_at vs i

pub result_at-put_self : (rs : Items) (i : ℕ) (v : Value) → result_at (put rs i v) i ≡ some v
unfolding result_at put
result_at-put_self nil zero v = refl
result_at-put_self nil (suc i) v = result_at-put_self nil i v
result_at-put_self (cons x xs) zero v = refl
result_at-put_self (cons x xs) (suc i) v = result_at-put_self xs i v

pub result_at-put_ne :
    (rs : Items) (i j : ℕ) (v : Value)
    → i ≢ j
    → j < count rs
    → result_at (put rs i v) j ≡ result_at rs j
unfolding result_at put count
result_at-put_ne nil i j v n h = absurd (omega arith)
result_at-put_ne (cons x xs) zero zero v n h = absurd (n refl)
result_at-put_ne (cons x xs) zero (suc j) v n h = refl
result_at-put_ne (cons x xs) (suc i) zero v n h = refl
result_at-put_ne (cons x xs) (suc i) (suc j) v n h =
    result_at-put_ne xs i j v (λ e. n (ap suc e)) (omega arith)

pub count-put : (rs : Items) (i : ℕ) (v : Value) → i < count rs → count (put rs i v) ≡ count rs
unfolding count put
count-put nil i v h = absurd (omega arith)
count-put (cons x xs) zero v h = refl
count-put (cons x xs) (suc i) v h = ap suc (count-put xs i v (omega arith))

pub count-nulls : (n : ℕ) → count (nulls n) ≡ n
unfolding count nulls
count-nulls zero = refl
count-nulls (suc n) = ap suc (count-nulls n)

-- The results after branches reported in the order of the list, `f` giving each branch's result.
unfoldable pub reported : (ℕ → Value) → List ℕ → Items → Items
unfolding put
reported f [] rs = rs
reported f (i ∷ is) rs = reported f is (put rs i (f i))

-- The results of the branches from `i` on, in their order.
unfoldable pub in_order : (ℕ → Value) → ℕ → ℕ → Items
in_order f i zero = nil
in_order f i (suc n) = cons (f i) (in_order f (i + 1) n)

abbrev pub member : ℕ → List ℕ → Bool
member i [] = false
member i (j ∷ js) = if eqb j i then true else member i js

pub count-reported :
    (f : ℕ → Value) (is : List ℕ) (rs : Items) (n : ℕ)
    → count rs ≡ n
    → All (λ i. i < n) is
    → count (reported f is rs) ≡ n
unfolding reported
count-reported f [] rs n c h = c
count-reported f (i ∷ is) rs n c (h, hs) =
    count-reported f is (put rs i (f i)) n (omega (arith, count-put rs i (f i))) hs

pub result_at-reported :
    (f : ℕ → Value) (is : List ℕ) (rs : Items) (n j : ℕ)
    → count rs ≡ n
    → All (λ i. i < n) is
    → j < n
    → result_at (reported f is rs) j ≡ (if member j is then some (f j) else result_at rs j)
unfolding reported
result_at-reported f [] rs n j c h lt = refl
result_at-reported f (i ∷ is) rs n j c (h, hs) lt =
    result_at-reported f is (put rs i (f i)) n j (omega (arith, count-put rs i (f i))) hs lt
    ∙ elim (dec_lt i j) [
      | yes p ↦ rw (result_at-put_ne rs i j (f i) (omega arith) (omega arith)) (ground arith)
      | no q ↦ elim (dec_lt j i) [
        | yes p ↦ rw (result_at-put_ne rs i j (f i) (omega arith) (omega arith)) (ground arith)
        | no r ↦ at_own_place (omega arith)
      ]
    ]
  where
    at_own_place :
        i ≡ j
        → (if member j is then some (f j) else result_at (put rs i (f i)) j)
          ≡ (if member j (i ∷ is) then some (f j) else result_at rs j)
    at_own_place e = rw (← e, result_at-put_self rs i (f i)) (ground arith)

items_ext :
    (as' bs : Items)
    → count as' ≡ count bs
    → ((j : ℕ) → j < count as' → result_at as' j ≡ result_at bs j)
    → as' ≡ bs
unfolding count result_at
items_ext nil nil c h = refl
items_ext nil (cons b bs) c h = absurd (omega arith)
items_ext (cons a as') nil c h = absurd (omega arith)
items_ext (cons a as') (cons b bs) c h =
    ap₂ cons (of_some_eq (h 0 (omega arith)))
      (items_ext as' bs (omega arith) (λ j lt. h (suc j) (omega arith)))

count-in_order : (f : ℕ → Value) (i n : ℕ) → count (in_order f i n) ≡ n
unfolding count in_order
count-in_order f i zero = refl
count-in_order f i (suc n) = ap suc (count-in_order f (i + 1) n)

result_at-in_order :
    (f : ℕ → Value) (i n j : ℕ) → j < n → result_at (in_order f i n) j ≡ some (f (i + j))
unfolding result_at in_order
result_at-in_order f i zero j h = absurd (omega arith)
result_at-in_order f i (suc n) zero h = ap (λ t. some (f t)) (omega arith)
result_at-in_order f i (suc n) (suc j) h =
    result_at-in_order f (i + 1) n j (omega arith) ∙ ap (λ t. some (f t)) (omega arith)

-- A barrier for `n` branches ends with the results in the order of the branches, in whatever order
-- and however often the branches report, once each of them has.
pub reported_in_order :
    (f : ℕ → Value) (n : ℕ) (is : List ℕ)
    → All (λ i. i < n) is
    → ((j : ℕ) → j < n → member j is ≡ true)
    → reported f is (nulls n) ≡ in_order f 0 n
reported_in_order f n is h m = items_ext _ _ (total ∙ sym (count-in_order f 0 n)) (λ j lt.
    result_at-reported f is (nulls n) n j (count-nulls n) h (below j lt)
    ∙ rw (m j (below j lt))
        (sym (result_at-in_order f 0 n j (below j lt) ∙ ap (λ t. some (f t)) (omega arith))))
  where
    total : count (reported f is (nulls n)) ≡ n
    total = count-reported f is (nulls n) n (count-nulls n) h

    below : (j : ℕ) → j < count (reported f is (nulls n)) → j < n
    below j lt = omega (arith, total)
