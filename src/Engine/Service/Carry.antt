-- ===== src/Engine/Service/Carry.antt =====
-- What a follow-up inherits of an earlier execution (services/engine/src/service.rs).
use ai_engineering_boilerpla.Base.{
  String, ◌≡◌, refl, ap, ◌∙◌, true, false, Option, none, some, List, [], ◌∷◌, ◌==◌, if◌then◌else◌,
  Bool-cases, inl, inr, find, arith, is_some,
}
use ai_engineering_boilerpla.Json.{Json, Value, Fields, array, of_list}
use ai_engineering_boilerpla.EngineCore.Graph.{UserId}
use ai_engineering_boilerpla.EngineCore.LlmOutput.{Serde}
use ai_engineering_boilerpla.EngineCore.Execution.{ExecutionId}
use ai_engineering_boilerpla.Engine.Rows.{ExecutionRow, Database}
use ai_engineering_boilerpla.Engine.Wire.{Columns}
use ai_engineering_boilerpla.Engine.Control.{execution_row, row_of, same_user}
use ai_engineering_boilerpla.Engine.Service.{
  prior_material_state_key, with_material, belongs_to, carry_material_from,
}

module _ (C : Columns) (J : Json) (S : Serde) where
  with_material-others :
      (input : Fields) (records : List Value) (k : String)
      → (prior_material_state_key == k) ≡ false
      → J.get (with_material C J S input records) k ≡ J.get input k
  unfolding of_list
  with_material-others input [] k h = refl
  with_material-others input (r ∷ rs) k h =
      J.get-insert input prior_material_state_key k (array (of_list (r ∷ rs)))
      ∙ ap (λ b. if b then some (array (of_list (r ∷ rs))) else J.get input k) h

  -- Nothing is carried from an execution that is not there or that belongs to another user, and
  -- whatever is carried changes no entry of the input but the one for prior material.
  pub carry_material_from-own :
      (parent : ExecutionId) (caller : Option UserId) (input : Fields) (db : Database)
      → ((k : String)
          → (prior_material_state_key == k) ≡ false
          → J.get (carry_material_from C J S parent caller input db) k ≡ J.get input k)
        × (find (λ r. r.id == parent) db.executions ≡ none
            → carry_material_from C J S parent caller input db ≡ input)
        × ((row : ExecutionRow)
            → find (λ r. r.id == parent) db.executions ≡ some row
            → is_some row.user_id ≡ true
            → same_user row.user_id caller ≡ false
            → carry_material_from C J S parent caller input db ≡ input)
  unfolding carry_material_from execution_row
  carry_material_from-own parent caller input db = (
    (λ k h.
        elim (Bool-cases
          (belongs_to C J S caller (row_of parent (find (λ r. r.id == parent) db.executions)))) [
            | inl t ↦ rw (t, carry_material_from) (with_material-others input _ k h)
            | inr t ↦ rw (t, carry_material_from) refl
          ]),
    (λ e. rw e refl),
    (λ row e u v. rw e (ground (arith, u, v))),
  )
