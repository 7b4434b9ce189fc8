-- ===== src/Tool/Race/Counts.antt =====
-- How often an operation stands in the parts of a race (services/tool/src/race.rs).
use ai_engineering_boilerpla.Base.{
  ℕ, zero, suc, ◌+◌, ◌≤◌, String, ◌≡◌, refl, Bool, true, false, List, [], ◌∷◌, ◌++◌, length, ◌==◌,
  arith,
}
use ai_engineering_boilerpla.Tool.Race.{Failure, no_operations, failed_with, timed_out, fill, pick}

abbrev pub one_if : Bool → ℕ
one_if true = 1
one_if false = 0

-- How often a name stands in a list.
abbrev pub tally : String → List String → ℕ
tally n [] = 0
tally n (x ∷ xs) = one_if (x == n) + tally n xs

abbrev pub tally_taken : {T : Type 0} → String → List (String × T) → ℕ
tally_taken n [] = 0
tally_taken n ((x, t) ∷ xs) = one_if (x == n) + tally_taken n xs

abbrev pub tally_failure : String → Failure → ℕ
tally_failure n no_operations = 0
tally_failure n (failed_with x reason) = one_if (x == n)
tally_failure n (timed_out x timeout) = one_if (x == n)

abbrev pub tally_failures : String → List Failure → ℕ
tally_failures n [] = 0
tally_failures n (f ∷ fs) = tally_failure n f + tally_failures n fs

pub tally-append : (n : String) (xs ys : List String) → tally n (xs ++ ys) ≡ tally n xs + tally n ys
tally-append n [] ys = omega arith
tally-append n (x ∷ xs) ys = omega (arith, tally-append n xs ys)

pub tally_taken-append :
    {T : Type 0} (n : String) (xs : List (String × T)) (x : String) (t : T)
    → tally_taken n (xs ++ (x, t) ∷ []) ≡ tally_taken n xs + one_if (x == n)
tally_taken-append n [] x t = omega arith
tally_taken-append n ((y, u) ∷ xs) x t = omega (arith, tally_taken-append n xs x t)

pub tally_failures-append :
    (n : String) (xs : List Failure) (f : Failure)
    → tally_failures n (xs ++ f ∷ []) ≡ tally_failures n xs + tally_failure n f
tally_failures-append n [] f = omega arith
tally_failures-append n (g ∷ xs) f = omega (arith, tally_failures-append n xs f)

pub tally-pick :
    (n : String) (i : ℕ) (o : String) (os : List String)
    → one_if ((pick i o os).0 == n) + tally n (pick i o os).1 ≡ one_if (o == n) + tally n os
unfolding pick
tally-pick n zero o os = refl
tally-pick n (suc i) o [] = refl
tally-pick n (suc i) o (p ∷ ps) = omega (arith, tally-pick n i p ps)

pub length-pick : (i : ℕ) (o : String) (os : List String) → length (pick i o os).1 ≡ length os
unfolding pick
length-pick zero o os = refl
length-pick (suc i) o [] = refl
length-pick (suc i) o (p ∷ ps) = omega (arith, length-pick i p ps)

pub tally-fill :
    (n : String) (width : ℕ) (ops : List String)
    → tally n (fill width ops).0 + tally n (fill width ops).1 ≡ tally n ops
unfolding fill
tally-fill n zero ops = omega arith
tally-fill n (suc width) [] = refl
tally-fill n (suc width) (o ∷ os) = omega (arith, tally-fill n width os)

pub length-fill :
    (width : ℕ) (ops : List String)
    → (length (fill width ops).0 ≤ width)
      × (length (fill width ops).0 + length (fill width ops).1 ≡ length ops)
unfolding fill
length-fill zero ops = (omega arith, omega arith)
length-fill (suc width) [] = (omega arith, omega arith)
length-fill (suc width) (o ∷ os) =
    let (a, b) = length-fill width os in (omega (arith, a), omega (arith, b))

pub fill_runs :
    (width : ℕ) (ops : List String)
    → 1 ≤ width
    → 1 ≤ length (fill width ops).1
    → 1 ≤ length (fill width ops).0
unfolding fill
fill_runs zero ops h w = absurd (omega arith)
fill_runs (suc width) [] h w = absurd (omega arith)
fill_runs (suc width) (o ∷ os) h w = omega arith
