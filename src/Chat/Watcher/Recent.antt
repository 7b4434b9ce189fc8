-- ===== src/Chat/Watcher/Recent.antt =====
-- What a watcher remembers (services/chat/src/topic_watcher.rs).
use ai_engineering_boilerpla.Base.{
  ℕ, ◌+◌, ◌≤◌, String, ◌≡◌, refl, subst, Bool, true, false, ◌||◌, List, [], ◌∷◌, ◌++◌, ◌==◌, eq_iff,
  any, length, length-append, ltb, leb, if◌then◌else◌, Bool-cases, inl, inr, arith,
}
use ai_engineering_boilerpla.Base.Tables.{count_where}
use ai_engineering_boilerpla.Base.Tables.Counts.{count_where-append}
use ai_engineering_boilerpla.Chat.Watcher.{
  max_remembered_event_ids, RecentEventIds, nothing_seen, forget_oldest, remember, handled,
}

abbrev pub times_in : String → List String → ℕ
times_in e order = count_where (λ o. o == e) order

-- The set has the ids of the queue, each of which stands there once, and there are at most 1024.
pub record IsRecent (r : RecentEventIds) : Type 0 where
  pub held : (e : String) → r.ids e ≡ leb 1 (times_in e r.order)
  pub once : (e : String) → times_in e r.order ≤ 1
  pub few : length r.order ≤ max_remembered_event_ids

pushed-times :
    (id e : String) (order : List String)
    → times_in e (order ++ id ∷ []) ≡ times_in e order + (if id == e then 1 else 0)
unfolding count_where
pushed-times id e order = omega (arith, count_where-append (λ o. o == e) order (id ∷ []))

-- The oldest id is forgotten, and no other one.
forget_oldest-IsRecent :
    (ids : String → Bool) (order : List String)
    → ((e : String) → ids e ≡ leb 1 (times_in e order))
    → ((e : String) → times_in e order ≤ 1)
    → length order ≤ max_remembered_event_ids + 1
    → IsRecent (forget_oldest ids order)
unfolding count_where
forget_oldest-IsRecent ids [] h once few = record { held = h; once = once; few = omega arith }
forget_oldest-IsRecent ids (oldest ∷ order) h once few = record {
  held = λ e. elim (Bool-cases (oldest == e)) [
    | inl t ↦ ground (arith, h e, once e, t)
    | inr t ↦ ground (arith, h e, once e, t)
  ];
  once = λ e. omega (arith, once e);
  few = omega (arith, few);
}

remember-IsRecent : (id : String) (r : RecentEventIds) → IsRecent r → IsRecent (remember id r).1
unfolding remember
remember-IsRecent id r h = elim (Bool-cases (r.ids id)) [
  | inl e ↦ rw e h
  | inr e ↦
      let order = r.order ++ id ∷ [] in
      let ids : String → Bool = λ e. (id == e) || r.ids e in
      let held : (e : String) → ids e ≡ leb 1 (times_in e order) =
        λ e. ground (arith, h.held e, pushed-times id e r.order) in
      let once : (e : String) → times_in e order ≤ 1 = λ e'. elim (Bool-cases (id == e')) [
        | inl t ↦
            let new : r.ids e' ≡ false = subst (λ i. r.ids i ≡ false) ((eq_iff id e').0 t) e in
            ground (arith, pushed-times id e' r.order, h.held e', new, t)
        | inr t ↦ ground (arith, pushed-times id e' r.order, h.once e', t)
      ] in
      let long : length order ≡ length r.order + 1 = length-append r.order (id ∷ []) in
      elim (Bool-cases (ltb max_remembered_event_ids (length order))) [
        | inl f ↦
            rw (e, f) (forget_oldest-IsRecent ids order held once (omega (arith, h.few, long)))
        | inr f ↦ rw (e, f) (record { held = held; once = once; few = ground (arith, f) })
      ]
]

handled-IsRecent :
    (events : List String) (r : RecentEventIds) → IsRecent r → IsRecent (handled events r).1
unfolding handled
handled-IsRecent [] r h = h
handled-IsRecent (id ∷ later) r h =
    handled-IsRecent later (remember id r).1 (remember-IsRecent id r h)

-- As long as nothing is forgotten, what was not seen before is handled once.
handled_new :
    (events : List String) (r : RecentEventIds)
    → length r.order + length events ≤ max_remembered_event_ids
    → (e : String)
    → times_in e (handled events r).0
      ≡ (if r.ids e then 0 else if any (λ o. o == e) events then 1 else 0)
unfolding handled remember count_where
handled_new [] r l e = ground arith
handled_new (id ∷ later) r l e = elim (Bool-cases (r.ids id)) [
  | inl t ↦ rw t (elim (Bool-cases (id == e)) [
    | inl q ↦
        let seen : r.ids e ≡ true = subst (λ i. r.ids i ≡ true) ((eq_iff id e).0 q) t in
        ground (arith, seen, handled_new later r (omega (arith, l)) e)
    | inr q ↦ ground (arith, q, handled_new later r (omega (arith, l)) e)
  ])
  | inr t ↦
      let grown : length (r.order ++ id ∷ []) ≡ length r.order + 1 =
        length-append r.order (id ∷ []) in
      let short : ltb max_remembered_event_ids (length (r.order ++ id ∷ [])) ≡ false =
        ground (arith, grown, l) in
      let rest =
        handled_new later (record { ids = λ e. (id == e) || r.ids e; order = r.order ++ id ∷ [] })
          (omega (arith, l, grown)) e in
      rw (t, short)
        (elim (Bool-cases (id == e)) [
          | inl q ↦
              let new : r.ids e ≡ false = subst (λ i. r.ids i ≡ false) ((eq_iff id e).0 q) t in
              ground (arith, new, q, rest)
          | inr q ↦ ground (arith, q, rest)
        ])
]

-- Whatever events a watcher sees, its set and its queue agree, hold an id once and hold at most 1024;
-- and of up to 1024 events, repeated after a reconnect or not, each id is handled exactly once.
pub handled_once :
    (events : List String)
    → IsRecent (handled events nothing_seen).1
      × (length events ≤ max_remembered_event_ids
          → (e : String)
          → times_in e (handled events nothing_seen).0
            ≡ (if any (λ o. o == e) events then 1 else 0))
unfolding count_where
handled_once events = (
  handled-IsRecent events nothing_seen
      (record { held = λ e. refl; once = λ e. omega arith; few = omega arith }),
  (λ l e. handled_new events nothing_seen (omega (arith, l)) e),
)
