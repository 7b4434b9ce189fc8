-- ===== src/Engine/Graphs.antt =====
-- services/engine/src/service.rs: registers the versions of a graph and finds them.
use ai_engineering_boilerpla.Base.{
  ℕ, ◌+◌, ◌-◌, String, Bool, Option, none, some, List, [], ◌∷◌, ◌++◌, ◌==◌, eqb, if◌then◌else◌,
}
use ai_engineering_boilerpla.Base.Results.{Result, ok, err, ◌>>=◌}
use ai_engineering_boilerpla.Base.Integers.{ℤ, pos, negsuc}
use ai_engineering_boilerpla.Base.Tables.{last_by}
use ai_engineering_boilerpla.Json.{Json}
use ai_engineering_boilerpla.EngineCore.Graph.{Instant, GraphId, Graph, Problem, validate}
use ai_engineering_boilerpla.Engine.Rows.{GraphRow, Database}
use ai_engineering_boilerpla.Engine.Wire.{Columns, unreadable, unsigned_or_zero, i32_max}
use ai_engineering_boilerpla.Engine.Tick.{graph_row}
use ai_engineering_boilerpla.Engine.Control.{EngineError, invalid_graph, graph_not_found, storage}

-- `serde_json::from_str` on a definition, and `validate`.
abbrev pub valid : Graph → Result (List Problem) Unit → Result EngineError Graph
valid g (ok u) = ok g
valid g (err problems) = err invalid_graph

unfoldable pub validated_graph : Result String Graph → Result EngineError Graph
unfolding validate
validated_graph (err e) = err invalid_graph
validated_graph (ok g) = valid g (validate g)

-- i32 addition of one, which wraps in a release build.
unfoldable pub plus_one : ℤ → ℤ
plus_one (pos n) = if eqb n i32_max then negsuc i32_max else pos (n + 1)
plus_one (negsuc n) = if eqb n 0 then pos 0 else negsuc (n - 1)

unfoldable pub next_version : Option GraphRow → ℤ
unfolding plus_one
next_version none = pos 1
next_version (some row) = plus_one row.version

-- `u32::try_from(version).unwrap_or(u32::MAX)`
abbrev pub unsigned_or_max : ℤ → ℕ
unsigned_or_max (pos n) = n
unsigned_or_max (negsuc n) = 0xffff_ffff

unfoldable pub newest_graph_row : GraphId → List GraphRow → Option GraphRow
newest_graph_row id rows = last_by (λ r. r.graph_id == id) (λ r. unsigned_or_zero r.version) rows

module _ (C : Columns) where
  open C use {graph_to_value, graph_from_value}

  unfoldable pub insert_next_version :
      GraphId → Graph → Option GraphRow → Instant → Database → (GraphId × ℤ) × Database
  unfolding next_version
  insert_next_version id definition newest now db =
      let version = next_version newest in
      let row : GraphRow = record {
        graph_id = id;
        version = version;
        user_id = none;
        definition = graph_to_value (record definition { version = unsigned_or_max version });
        created_at = now;
      } in
      ((id, version), record db { graphs = db.graphs ++ row ∷ [] })

  unfoldable pub register_graph :
      GraphId
      → Result String Graph
      → Instant
      → Database
      → Result EngineError ((GraphId × ℤ) × Database)
  unfolding validated_graph newest_graph_row insert_next_version
  register_graph id sent now db = do
    definition ← validated_graph sent
    ok (insert_next_version id definition (newest_graph_row id db.graphs) now db)

  unfoldable pub graph_for : GraphId → Option ℤ → List GraphRow → Option GraphRow
  unfolding newest_graph_row
  graph_for id none rows = newest_graph_row id rows
  graph_for id (some version) rows = graph_row C id version rows

  abbrev pub defined_by : GraphId → Option ℤ → Option GraphRow → Result EngineError GraphRow
  defined_by id version (some row) = ok row
  defined_by id version none = err (graph_not_found id version)

  abbrev pub defined : Result String Graph → Result EngineError Graph
  defined (ok g) = ok g
  defined (err e) = err (storage (unreadable e))

  unfoldable pub load_graph : GraphId → Option ℤ → Database → Result EngineError (GraphRow × Graph)
  unfolding graph_for
  load_graph id version db = do
    row ← defined_by id version (graph_for id version db.graphs)
    definition ← defined (graph_from_value row.definition)
    ok (row, definition)

  module _ (J : Json) where
    -- `already_stored`
    unfoldable pub already_stored : GraphRow → Graph → Bool
    already_stored row definition =
        J.value_eq (graph_to_value (record definition { version = unsigned_or_max row.version }))
          row.definition

    abbrev pub unchanged : Option GraphRow → Graph → Option ℤ
    unfolding already_stored
    unchanged none definition = none
    unchanged (some row) definition =
        if already_stored row definition then some row.version else none

    unfoldable pub register_graph_if_changed :
        GraphId
        → Result String Graph
        → Instant
        → Database
        → Result EngineError ((GraphId × ℤ) × Database)
    unfolding validated_graph newest_graph_row insert_next_version already_stored
    register_graph_if_changed id sent now db = do
      definition ← validated_graph sent
      ok (elim (unchanged (newest_graph_row id db.graphs) definition) [
        | some version ↦ ((id, version), db)
        | none ↦ insert_next_version id definition (newest_graph_row id db.graphs) now db
      ])
