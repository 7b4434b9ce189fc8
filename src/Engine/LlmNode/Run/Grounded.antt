-- ===== src/Engine/LlmNode/Run/Grounded.antt =====
-- Where the reply of an llm node may come from (services/engine/src/executors/llm.rs).
use ai_engineering_boilerpla.Base.{
  String, ◌≡◌, refl, ap, subst, not, ◌||◌, Option, some, none, List, [], ◌∷◌, Bool-cases, inl, inr,
}
use ai_engineering_boilerpla.Base.Results.{Result, ok, err}
use ai_engineering_boilerpla.Json.{Json, Value, null}
use ai_engineering_boilerpla.EngineCore.LlmOutput.{Serde, ToolRecord, ToolCall, record_of}
use ai_engineering_boilerpla.Engine.Nodes.{IdempotencyKey}
use ai_engineering_boilerpla.Engine.ToolNode.{Client, question_in_state}
use ai_engineering_boilerpla.Engine.LlmNode.{
  Services, LlmSerde, loop, from_material, LlmNodeConfig, CompleteRequest,
}
use ai_engineering_boilerpla.Engine.LlmNode.Reply.{
  merge_usage, without_tool_call, attach_fast_tool_call, reply_to_check, compose_failure,
}
use ai_engineering_boilerpla.Engine.LlmNode.Material.{
  Material, only_what_was_carried_and_is_still_fresh, with_lookup, material_of, rendered_carried,
}
use ai_engineering_boilerpla.Engine.LlmNode.Prompt.{complete_request_for}
use ai_engineering_boilerpla.Engine.LlmNode.Spans.{Words}
use ai_engineering_boilerpla.Engine.LlmNode.Choice.{
  FastPath, fast_tool_call, fast_compose, fast_material, fast_decline,
}
use ai_engineering_boilerpla.Engine.LlmNode.Checked.{complete_with_retries, checked_against}
use ai_engineering_boilerpla.Engine.LlmNode.Checked.Vouched.{Result-cases, checked_against-Sent}
use ai_engineering_boilerpla.Engine.LlmNode.Checked.Said.{checked_against-Traced}
use ai_engineering_boilerpla.Engine.LlmNode.Run.{
  plain_reply, decline, clarify, and_with, done, completed_and_checked, answered_with_the_lookup,
  run_fast_tool_call, dispatch_tool_fast, schema_of, parse_config,
}
use ai_engineering_boilerpla.Engine.LlmNode.Run.Speaks.{
  IsFresh, IsMaterial, Speaks, Vetted, Sent-Speaks, usage-Speaks, attached-Speaks, plain-Speaks,
  struck-Speaks,
}
use ai_engineering_boilerpla.Engine.LlmNode.Run.Compose.{
  asked_for_or_looked_up, with_composed, composed, compose_tool_call,
}
use ai_engineering_boilerpla.Engine.LlmNode.Run.Paths.{
  run_llm_node, answer_from_material, unless_stale, from_carried, taking, unless_fast,
  decide_fast_path, has_fetched, configured, try_fast_path,
}

module _ (J : Json) (S : Serde) (C : Client) (L : LlmSerde J) (T : Words) where
  module _ {World : Type 0} (V : Services World) (config : LlmNodeConfig) (state : Value) where
    -- An error, or an output whose reply is vetted.
    abbrev pub EndsVetted : Result String Value × World → Type 0
    EndsVetted (err e, w) = Unit
    EndsVetted (ok v, w) = Speaks J S C L T V config state v

    after-EndsVetted :
        {A : Type 0} (p : Result String A × World) (k : A → World → Result String Value × World)
        → ((a : A) (u : World) → EndsVetted (k a u))
        → EndsVetted (and_with J S C L T V p k)
    after-EndsVetted (err e, w) k h = tt
    after-EndsVetted (ok a, w) k h = h a w

    then-EndsVetted :
        (p : Result String Value × World) (k : Value → World → Result String Value × World)
        → EndsVetted p
        → ((v : Value) (u : World) → Speaks J S C L T V config state v → EndsVetted (k v u))
        → EndsVetted (and_with J S C L T V p k)
    then-EndsVetted (err e, w) k g h = tt
    then-EndsVetted (ok v, w) k g h = h v w g

    completed-EndsVetted :
        (request : CompleteRequest) (material : Material) (w : World)
        → IsMaterial J S C L T V config state material
        → EndsVetted (completed_and_checked J S C L T V request material w)
    unfolding completed_and_checked
    completed-EndsVetted request material w m =
        after-EndsVetted (complete_with_retries V J L request w) _ (λ output u.
          Sent-Speaks J S C L T V config state material _ m
            (checked_against-Sent J L V S C request material output u))

    looked_up-EndsVetted :
        (material : Material) (m : material ≡ material_of J S state) (call : ToolCall)
        → (key : IdempotencyKey) (w : World)
        → EndsVetted (answered_with_the_lookup J S C L T V config state material call key w)
    unfolding answered_with_the_lookup
    looked_up-EndsVetted material m call key w =
        let (result, w') = dispatch_tool_fast J S C L T V call key w in
        let looked_up = record_of call result (L.write_time (V.clock w')) in
        let seen = with_lookup material looked_up in
        let request = complete_request_for J S C config state loop seen in
        then-EndsVetted (completed_and_checked J S C L T V request seen w')
          (λ output u. (ok (attach_fast_tool_call J L S output looked_up), u))
          (completed-EndsVetted request seen w'
            (inr (inl (looked_up, ap (λ (x : Material). with_lookup x looked_up) m))))
          (λ v u g. attached-Speaks J S C L T V config state v looked_up g)

    fast_call-EndsVetted :
        (material : Material) (m : material ≡ material_of J S state) (call : ToolCall)
        → (usage : Value) (key : IdempotencyKey) (w : World)
        → EndsVetted (run_fast_tool_call J S C L T V config state material call usage key w)
    unfolding run_fast_tool_call
    fast_call-EndsVetted material m call usage key w =
        then-EndsVetted (answered_with_the_lookup J S C L T V config state material call key w) _
          (looked_up-EndsVetted material m call key w)
          (λ v u g. usage-Speaks J S C L T V config state usage v g)

    decline-Speaks :
        (usage : Value) → Speaks J S C L T V config state (decline J S C L T config usage)
    unfolding decline
    decline-Speaks usage =
        usage-Speaks J S C L T V config state usage _
          (plain-Speaks J S C L T V config state _ (inr (inr (inr (inl (_, refl))))))

    clarify-Speaks :
        (schema : String) (usage : Value)
        → Speaks J S C L T V config state (clarify J S C L T schema usage)
    unfolding clarify
    clarify-Speaks schema usage =
        usage-Speaks J S C L T V config state usage _
          (plain-Speaks J S C L T V config state _ (inr (inr (inr (inr (_, refl))))))

    asked_or_looked_up-EndsVetted :
        (material : Material) (m : material ≡ material_of J S state) (call : ToolCall)
        → (spent usage : Value) (key : IdempotencyKey) (p : Option String × World)
        → EndsVetted
            (asked_for_or_looked_up J S C L T V config state material call spent usage key p)
    unfolding asked_for_or_looked_up
    asked_or_looked_up-EndsVetted material m call spent usage key (some asked, w) =
        let schema = schema_of config call.name in
        let asking = clarify J S C L T schema null in
        usage-Speaks J S C L T V config state usage (merge_usage J L spent asking)
          (usage-Speaks J S C L T V config state spent asking (clarify-Speaks schema null))
    asked_or_looked_up-EndsVetted material m call spent usage key (none, w) =
        then-EndsVetted (answered_with_the_lookup J S C L T V config state material call key w) _
          (looked_up-EndsVetted material m call key w)
          (λ v u g.
            usage-Speaks J S C L T V config state usage (merge_usage J L spent v)
              (usage-Speaks J S C L T V config state spent v g))

    with_composed-EndsVetted :
        (material : Material) (m : material ≡ material_of J S state) (call : Option ToolCall)
        → (spent usage : Value) (key : IdempotencyKey) (w : World)
        → EndsVetted (with_composed J S C L T V config state material call spent usage key w)
    unfolding with_composed
    with_composed-EndsVetted material m none spent usage key w =
        let failure = plain_reply J S C L T compose_failure in
        usage-Speaks J S C L T V config state usage (merge_usage J L spent failure) (
          usage-Speaks J S C L T V config state spent failure
            (plain-Speaks J S C L T V config state compose_failure (inr (inr (inl refl)))))
    with_composed-EndsVetted material m (some call) spent usage key w =
        asked_or_looked_up-EndsVetted material m call spent usage key _

    compose-EndsVetted :
        (material : Material) (m : material ≡ material_of J S state) (usage : Value)
        → (key : IdempotencyKey) (w : World)
        → EndsVetted (compose_tool_call J S C L T V config state material usage key w)
    unfolding compose_tool_call
    compose-EndsVetted material m usage key w =
        after-EndsVetted (composed J S C L T V config state material w) _
          (λ spent u. with_composed-EndsVetted material m _ spent usage key u)

    struck-EndsVetted :
        (material : Material) (usage : Value) (w : World) (p : Result String Value × World)
        → IsFresh J S C L T V config state material
        → let request = complete_request_for J S C config state from_material material in
          complete_with_retries V J L request w ≡ p
          → EndsVetted (
              and_with J S C L T V
                (and_with J S C L T V p (λ output u.
                  done J S C L T V (checked_against V J L S C request material output u)))
                (λ output u. (ok (merge_usage J L usage (without_tool_call J L output)), u)))
    struck-EndsVetted material usage w (err e, u) m h = tt
    struck-EndsVetted material usage w (ok output, u) m h =
        let request = complete_request_for J S C config state from_material material in
        usage-Speaks J S C L T V config state usage _ (
          struck-Speaks J S C L T V config state material _ m
            (checked_against-Sent J L V S C request material output u)
            (checked_against-Traced V J L S C request material output w u h))

    unless_stale-EndsVetted :
        (rs : List ToolRecord) (material : Material) (usage : Value) (w : World)
        → IsFresh J S C L T V config state material
        → EndsVetted (unless_stale J S C L T V config state rs material usage w)
    unfolding unless_stale from_carried completed_and_checked
    unless_stale-EndsVetted [] material usage w m = decline-Speaks usage
    unless_stale-EndsVetted (r ∷ rs) material usage w m =
        struck-EndsVetted material usage w _ m refl

    taking-EndsVetted :
        (material : Material) (m : material ≡ material_of J S state) (key : IdempotencyKey)
        → (p : FastPath × World) → EndsVetted (taking J S C L T V config state material key p)
    unfolding taking answer_from_material
    taking-EndsVetted material m key (fast_tool_call call usage, w) =
        fast_call-EndsVetted material m call usage key w
    taking-EndsVetted material m key (fast_compose tool usage, w) =
        compose-EndsVetted material m usage key w
    taking-EndsVetted material m key (fast_material usage, w) =
        unless_stale-EndsVetted _ _ usage w
          (_, ap (λ (x : Material). only_what_was_carried_and_is_still_fresh J S L x (V.clock w)) m)
    taking-EndsVetted material m key (fast_decline usage, w) = decline-Speaks usage

    unless_fast-EndsVetted :
        (material : Material) (m : material ≡ material_of J S state) (key : IdempotencyKey)
        → (w : World)
        → EndsVetted (
            unless_fast J S C L T V config state material
              (try_fast_path J S C L T V config state material key w)
              w)
    unfolding unless_fast try_fast_path
    unless_fast-EndsVetted material m key w =
        elim (Bool-cases (not config.tool_calling || has_fetched J S C L T V material)) [
          | inl t ↦ rw t (
              completed-EndsVetted (complete_request_for J S C config state loop material) material
                w (inl m))
          | inr t ↦ rw t (
              taking-EndsVetted material m key (
                decide_fast_path J S C L T V config (question_in_state J S C state).question
                  (rendered_carried J S C material) w))
        ]

  module _ {World : Type 0} (V : Services World) where
    -- What the node is configured as, with which its outputs are vetted.
    abbrev EndsVettedIn : Value → Value → Result String Value × World → Type 0
    EndsVettedIn config state (err e, w) = Unit
    EndsVettedIn config state (ok v, w) =
        (c : LlmNodeConfig) × (parse_config J S C L T config ≡ ok c) × Speaks J S C L T V c state v

    vetted_in :
        (config state : Value) (c : LlmNodeConfig)
        → parse_config J S C L T config ≡ ok c
        → (p : Result String Value × World) → EndsVetted V c state p
        → EndsVettedIn config state p
    vetted_in config state c e (err x, w) h = tt
    vetted_in config state c e (ok v, w) h = (c, e, h)

    run-EndsVetted :
        (config state : Value) (key : IdempotencyKey) (w : World)
        → EndsVettedIn config state (run_llm_node J S C L T V config state key w)
    unfolding run_llm_node configured
    run-EndsVetted config state key w = elim (Result-cases (parse_config J S C L T config)) [
      | inl (x, p) ↦ rw p tt
      | inr (c, p) ↦
          vetted_in config state c p _
            (rw p (unless_fast-EndsVetted V c state (material_of J S state) refl key w))
    ]

    -- Whatever the model, the decider and the tools answer, a reply without a tool call that an llm
    -- node returns is one of the texts that the agent says of itself; or was judged by the decider
    -- together with the material of this state, with a lookup or without, and found neither promising
    -- nor ungrounded; or the model gave it together with a tool call, which was struck out, when it
    -- was asked for an answer from the fresh material of this state.
    pub run_llm_node-Vetted :
        (config state : Value) (key : IdempotencyKey) (w w' : World) (v : Value) (reply : String)
        → run_llm_node J S C L T V config state key w ≡ (ok v, w')
        → reply_to_check J L v ≡ some reply
        → (c : LlmNodeConfig) × (parse_config J S C L T config ≡ ok c)
          × Vetted J S C L T V c state reply
    run_llm_node-Vetted config state key w w' v reply e h =
        let (c, p, speaks) =
          subst (EndsVettedIn config state) e (run-EndsVetted config state key w) in
        (c, p, speaks reply h)
