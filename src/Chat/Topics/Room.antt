-- ===== src/Chat/Topics/Room.antt =====
-- What one change of the topics does to the number that run (services/chat/src/topic_queue.rs).
use ai_engineering_boilerpla.Base.{
  ℕ, ◌+◌, ◌≤◌, ◌<◌, String, ◌≡◌, refl, ap, sym, ◌∙◌, subst, Bool, true, false, ◌&&◌, Option, some,
  List, [], ◌∷◌, ◌++◌, ◌==◌, All, All-append, ltb, eqb, eq_iff, arith, inl, inr, Bool-cases,
}
use ai_engineering_boilerpla.Base.Tables.{first_by, update_where, count_where}
use ai_engineering_boilerpla.Base.Tables.Laws.{All-update_where}
use ai_engineering_boilerpla.Base.Tables.Counts.{
  count_where-append, count_where-update_where, count_where-kept, count_where-fewer,
  count_where-apart, count_where-none, count_where-Any, first_by-found,
}
use ai_engineering_boilerpla.EngineCore.Graph.{Instant}
use ai_engineering_boilerpla.EngineCore.Execution.{ExecutionId}
use ai_engineering_boilerpla.Chat.Rows.{TopicStatus, SessionId, TopicRow}
use ai_engineering_boilerpla.Chat.Topics.{
  max_concurrent_topics, is_running, running_in, queued_in, admission_status, promoted,
}
use ai_engineering_boilerpla.Chat.Focus.{finished}

abbrev pub has_id : ℕ → TopicRow → Bool
has_id n t = eqb t.id n

pub record IsCapped (topics : List TopicRow) (next_id : ℕ) : Type 0 where
  pub below : All (λ t. t.id < next_id) topics
  pub unique : (n : ℕ) → count_where (has_id n) topics ≤ 1
  pub cap : (s : SessionId) → count_where (running_in s) topics ≤ max_concurrent_topics

below-other :
    (n : ℕ) (topics : List TopicRow)
    → All (λ t. t.id < n) topics
    → All (λ t. has_id n t ≡ false) topics
below-other n [] h = tt
below-other n (t ∷ ts) (a, b) = (ground (arith, a), below-other n ts b)

below-later :
    (n : ℕ) (topics : List TopicRow) → All (λ t. t.id < n) topics → All (λ t. t.id < n + 1) topics
below-later n [] h = tt
below-later n (t ∷ ts) (a, b) = (omega (arith, a), below-later n ts b)

-- Where a topic is admitted to run, there is room for it.
admitted :
    (session : SessionId) (topics : List TopicRow)
    → is_running (admission_status session topics) ≡ true
    → count_where (running_in session) topics < max_concurrent_topics
unfolding admission_status
admitted session topics e =
    elim (Bool-cases (ltb (count_where (running_in session) topics) max_concurrent_topics)) [
      | inl t ↦ ground (arith, t)
      | inr t ↦ absurd (ground (arith, t, e))
    ]

pub added-IsCapped :
    (topics : List TopicRow) (n : ℕ) (row : TopicRow)
    → row.id ≡ n
    → row.status ≡ admission_status row.session_id topics
    → IsCapped topics n
    → IsCapped (topics ++ row ∷ []) (n + 1)
unfolding count_where
added-IsCapped topics n row e f h = record {
  below =
      All-append (λ t. t.id < n + 1) topics (row ∷ []) (below-later n topics h.below)
        (omega (arith, e), tt);
  unique = λ m. elim (Bool-cases (eqb n m)) [
    | inl t ↦
        let q : n ≡ m = ground (arith, t) in
        let z =
          count_where-none (has_id m) topics
            (subst (λ k. All (λ t. has_id k t ≡ false) topics) q (below-other n topics h.below)) in
        ground (arith, count_where-append (has_id m) topics (row ∷ []), z)
    | inr t ↦ ground (arith, count_where-append (has_id m) topics (row ∷ []), h.unique m, t, e)
  ];
  cap = λ s. elim (Bool-cases (running_in s row)) [
    | inl t ↦
        let own : row.session_id ≡ s = (eq_iff row.session_id s).0 (ground (arith, t)) in
        let room : count_where (running_in row.session_id) topics < max_concurrent_topics =
          admitted row.session_id topics (ap is_running (sym f) ∙ ground (arith, t)) in
        let room' : count_where (running_in s) topics < max_concurrent_topics =
          subst (λ i. count_where (running_in i) topics < max_concurrent_topics) own room in
        ground (arith, count_where-append (running_in s) topics (row ∷ []), room', t)
    | inr t ↦ ground (arith, count_where-append (running_in s) topics (row ∷ []), h.cap s, t)
  ];
}

pub promoted-IsCapped :
    (topics : List TopicRow) (n : ℕ) (next : TopicRow) (session : SessionId)
    (execution : ExecutionId) (now : Instant)
    → first_by (queued_in session) (λ t. t.created_at) topics ≡ some next
    → is_running (admission_status session topics) ≡ true
    → IsCapped topics n
    → IsCapped (update_where (has_id next.id) (promoted execution now) topics) n
promoted-IsCapped topics n next session execution now e f h =
    let (queued_next, member) =
      first_by-found (queued_in session) (λ t. t.created_at) topics next e in
    record {
      below =
          All-update_where (λ t. t.id < n) (has_id next.id) (promoted execution now) topics
            (λ t k. k) h.below;
      unique = λ m.
          subst (λ k. k ≤ 1)
            (sym (
              count_where-kept (has_id m) (has_id next.id) (promoted execution now) topics
                (λ t. refl)))
            (h.unique m);
      cap = λ s.
          let named : TopicRow → Bool = λ t. has_id next.id t && (t.session_id == s) in
          let more =
            count_where-update_where (running_in s) (has_id next.id) named (promoted execution now)
              topics (λ t a b. ground (arith, a, b)) in
          elim (Bool-cases (session == s)) [
            | inl t ↦
                let room =
                  subst (λ i. count_where (running_in i) topics < max_concurrent_topics)
                    ((eq_iff session s).0 t) (admitted session topics f) in
                let few =
                  count_where-apart named (λ t. false) (has_id next.id) topics
                    (λ t a. (ground (arith, a), refl)) (λ t a. cc) in
                omega (arith, room, few, h.unique next.id, more)
            | inr t ↦
                let own : TopicRow → Bool = λ r. has_id next.id r && (r.session_id == session) in
                let there_is =
                  count_where-Any own next topics member (ground (arith, queued_next)) in
                let few =
                  count_where-apart own named (has_id next.id) topics
                    (λ r a. (
                      ground (arith, a),
                      ground (
                        arith,
                        ap (λ i. i == s) ((eq_iff r.session_id session).0 (ground (arith, a))),
                        t,
                      ),
                    ))
                    (λ r a. ground (arith, a)) in
                omega (arith, there_is, few, h.unique next.id, more, h.cap s)
          ];
    }

pub finished-IsCapped :
    (topics : List TopicRow) (n id : ℕ) (status : TopicStatus) (summary : Option String)
    (now : Instant)
    → is_running status ≡ false
    → IsCapped topics n
    → IsCapped (update_where (has_id id) (finished status summary now) topics) n
finished-IsCapped topics n id status summary now e h = record {
  below =
      All-update_where (λ t. t.id < n) (has_id id) (finished status summary now) topics (λ t k. k)
        h.below;
  unique = λ m.
      subst (λ k. k ≤ 1)
        (sym (
          count_where-kept (has_id m) (has_id id) (finished status summary now) topics (λ t. refl)))
        (h.unique m);
  cap = λ s. omega (
    arith,
    h.cap s,
    count_where-fewer (running_in s) (has_id id) (finished status summary now) topics
        (λ t a. absurd (ground (arith, a, e))),
  );
}
