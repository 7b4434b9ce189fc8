-- ===== src/Tests/Race.antt =====
-- The theorems on races at a concrete race.
use ai_engineering_boilerpla.Base.{ℕ, max, String, ◌≡◌, refl, List, [], ◌∷◌}
use ai_engineering_boilerpla.Base.Results.{ok, err}
use ai_engineering_boilerpla.Tool.Race.{failed_with, Ended, finished, Racing, race}
use ai_engineering_boilerpla.Tool.Race.Settled.{Settled, race-Settled}

-- The second running operation ends first: two fail, then the others succeed.
abbrev arrival : Racing ℕ → ℕ × Ended ℕ
arrival r = elim r.waiting [ [] ↦ (1, finished (ok 7)) | w ∷ ws ↦ (1, finished (err "down")) ]

abbrev mirrors : List String
mirrors = "b" ∷ "c" ∷ "d" ∷ []

race_takes : race ("a" ∷ mirrors) 2 1 5 arrival ≡ record {
  taken = ("d", 7) ∷ [];
  failures = failed_with "b" "down" ∷ failed_with "c" "down" ∷ [];
}
unfolding race
race_takes = refl

race-Settled_example : Settled ("a" ∷ mirrors) (max 1 1) (race ("a" ∷ mirrors) 2 1 5 arrival)
race-Settled_example = race-Settled "a" mirrors 2 1 5 arrival
