-- ===== src/Engine/Wire/RoundTrip.antt =====
-- What is read back from the rows (services/engine/src/wire.rs).
use ai_engineering_boilerpla.Base.{min, ◌≤◌, ◌≡◌, refl, sym, ap, arith, Bool-cases, inl, inr}
use ai_engineering_boilerpla.Base.Results.{ok, ◌>>=◌, >>=-eq-ok, of_ok_eq}
use ai_engineering_boilerpla.EngineCore.Graph.{Instant}
use ai_engineering_boilerpla.EngineCore.Execution.{
  Status, ready, running, waiting, completed, failed, cancelled, Checkpoint,
  checkpoint_schema_version,
}
use ai_engineering_boilerpla.Engine.Rows.{CheckpointRow}
use ai_engineering_boilerpla.Engine.Wire.{
  Columns, i32_max, i16_max, same_version, unsigned_or_zero, read, status_to_columns,
  columns_to_status, checkpoint_to_row, checkpoint_from_model,
}

module _ (C : Columns) where
  -- A status that is written to its two columns is read back as it was.
  pub status_round_trip :
      (s : Status)
      → let (status, wait) = status_to_columns C s in columns_to_status C status wait ≡ ok s
  unfolding status_to_columns columns_to_status
  status_round_trip ready = refl
  status_round_trip running = refl
  status_round_trip (waiting on) = rw (C.wait-round_trip on) refl
  status_round_trip completed = refl
  status_round_trip failed = refl
  status_round_trip cancelled = refl

  -- A checkpoint of this version that is written is read back as it was, if its step fits the column.
  pub checkpoint_round_trip :
      (now : Instant) (c : Checkpoint)
      → c.schema_version ≡ checkpoint_schema_version
      → c.step ≤ i32_max
      → checkpoint_from_model C (checkpoint_to_row C now c) ≡ ok c
  unfolding checkpoint_from_model checkpoint_to_row read
  checkpoint_round_trip now c v s =
      let m1 : min c.schema_version i16_max ≡ 1 = omega (arith, v) in
      let m2 : min c.step i32_max ≡ c.step = omega (arith, s) in
      rw m1 (
        rw (C.nodes-round_trip c.current_nodes) (λ i. ok (record {
          schema_version = sym v i;
          execution_id = c.execution_id;
          step = m2 i;
          state = c.state;
          current_nodes = c.current_nodes;
        })))

  pub checkpoint_from_model-step :
      (r : CheckpointRow) (c : Checkpoint)
      → checkpoint_from_model C r ≡ ok c
      → c.step ≡ unsigned_or_zero r.step
  unfolding checkpoint_from_model
  checkpoint_from_model-step r c e = elim (Bool-cases (same_version r.schema_version)) [
    | inl t ↦
        let e' : (do
          nodes ← read (C.nodes_from_value r.current_nodes)
          ok (record {
            schema_version = unsigned_or_zero r.schema_version;
            execution_id = r.execution_id;
            step = unsigned_or_zero r.step;
            state = r.state;
            current_nodes = nodes;
          }))
            ≡ ok c =
          ground (arith, t, e) in
        let (nodes, a, b) = >>=-eq-ok (read (C.nodes_from_value r.current_nodes)) _ e' in
        ap (λ (k : Checkpoint). k.step) (sym (of_ok_eq b))
    | inr t ↦ absurd (ground (arith, t, e))
  ]
