-- ===== src/Base/Tables.antt =====
-- Tables as lists of rows, and the queries that sea-orm's builders make of them.
pub mod Laws
pub mod Counts
use Prim.Native.Nat.{ℕ, suc, ◌+◌}
use mathlib.Core.Bool.{Bool, true, false, not}
use mathlib.Core.Option.{Option, none, some}
use mathlib.Core.List.{List, [], ◌∷◌}
use ai_engineering_boilerpla.Base.Tests.{if◌then◌else◌, ltb}

module _ {ℓ} {A : Type ℓ} where
  abbrev pub least : (A → ℕ) → A → Option A → A
  least key a none = a
  least key a (some b) = if ltb (key b) (key a) then b else a

  abbrev pub greatest : (A → ℕ) → A → Option A → A
  greatest key a none = a
  greatest key a (some b) = if ltb (key a) (key b) then b else a

  -- `.filter(p).order_by_asc(key).one()`
  unfoldable pub first_by : (A → Bool) → (A → ℕ) → List A → Option A
  first_by p key [] = none
  first_by p key (a ∷ as') =
      let rest = first_by p key as' in if p a then some (least key a rest) else rest

  -- `.filter(p).order_by_desc(key).one()`
  unfoldable pub last_by : (A → Bool) → (A → ℕ) → List A → Option A
  last_by p key [] = none
  last_by p key (a ∷ as') =
      let rest = last_by p key as' in if p a then some (greatest key a rest) else rest

  -- `.update_many().filter(p)`
  unfoldable pub update_where : (A → Bool) → (A → A) → List A → List A
  update_where p f [] = []
  update_where p f (a ∷ as') = (if p a then f a else a) ∷ update_where p f as'

  -- `rows_affected`
  unfoldable pub count_where : (A → Bool) → List A → ℕ
  count_where p [] = 0
  count_where p (a ∷ as') = (if p a then 1 else 0) + count_where p as'

  -- `.delete_many().filter(p)`
  unfoldable pub delete_where : (A → Bool) → List A → List A
  delete_where p [] = []
  delete_where p (a ∷ as') = let rest = delete_where p as' in if p a then rest else a ∷ rest
