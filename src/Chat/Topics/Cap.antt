-- ===== src/Chat/Topics/Cap.antt =====
-- At most three topics of a session run at once (services/chat/src/topic_queue.rs).
use ai_engineering_boilerpla.Base.{
  ℕ, ◌≤◌, ◌<◌, String, ◌≡◌, refl, ap, sym, ◌∙◌, subst, Bool, false, Option, none, some, [], ◌==◌,
  find, eqb, if◌then◌else◌, arith, inl, inr, Bool-cases, Option-cases,
}
use ai_engineering_boilerpla.Base.Results.{Result, ok, err, >>=-eq-ok, of_ok_eq}
use ai_engineering_boilerpla.Base.Tables.{first_by, count_where}
use ai_engineering_boilerpla.Base.Tables.Laws.{All-delete_where}
use ai_engineering_boilerpla.Base.Tables.Counts.{count_where-delete_where}
use ai_engineering_boilerpla.Json.{Value}
use ai_engineering_boilerpla.EngineCore.Graph.{Instant, UserId}
use ai_engineering_boilerpla.EngineCore.Execution.{ExecutionId}
use ai_engineering_boilerpla.Chat.Rows.{
  TopicStatus, SessionId, TopicRow, SessionRow, ChatDatabase, ChatError,
}
use ai_engineering_boilerpla.Chat.Topics.{
  max_concurrent_topics, is_running, running_in, queued_in, admission_status, lock_session,
  topic_by_id, get_or_create_session, started, execution_for, insert_topic, parent_execution_of,
  promote, promote_next_queued, topic_not_found,
}
use ai_engineering_boilerpla.Chat.Focus.{
  update_topic_status_and_move_focus, set_focus, reset_session,
}
use ai_engineering_boilerpla.Chat.Topics.Room.{
  has_id, IsCapped, added-IsCapped, promoted-IsCapped, finished-IsCapped,
}

-- The calls, the watchers that finish topics and promote the next ones, one transaction at a time.
pub data Step (db : ChatDatabase) : ChatDatabase → Type 0 where
  opens :
      (id : SessionId) (user : UserId) (now : Instant)
      → Step db (get_or_create_session id user now db).1
  creates :
      (session : SessionId) (parent : Option ℕ) (title : String) (input : Value)
      (answer : Result String ExecutionId) (now : Instant) {row : TopicRow} {db' : ChatDatabase}
      → insert_topic session parent title input answer now db ≡ ok (row, db')
      → Step db db'
  promotes :
      (session : SessionId) (answer : Option ExecutionId → Result String ExecutionId)
      (now : Instant) {id : Option ℕ} {db' : ChatDatabase}
      → promote_next_queued session answer now db ≡ ok (id, db')
      → Step db db'
  -- A topic ends with one of the statuses that end an execution.
  finishes :
      (id : ℕ) (status : TopicStatus) (summary : Option String) (now : Instant)
      (at_lookup : ChatDatabase) {db' : ChatDatabase}
      → is_running status ≡ false
      → update_topic_status_and_move_focus id status summary now at_lookup db ≡ ok db'
      → Step db db'
  focuses :
      (session : SessionRow) (id : ℕ) {db' : ChatDatabase}
      → set_focus session id db ≡ ok db'
      → Step db db'
  resets :
      (session : SessionId) {db' : ChatDatabase} → reset_session session db ≡ ok db' → Step db db'

pub data Reach : ChatDatabase → Type 0 where
  start : Reach (record { sessions = []; topics = []; next_id = 0 })
  later : {db db' : ChatDatabase} → Reach db → Step db db' → Reach db'

abbrev Capped : ChatDatabase → Type 0
Capped db = IsCapped db.topics db.next_id

insert_topic-Capped :
    (session : SessionId) (parent : Option ℕ) (title : String) (input : Value)
    (answer : Result String ExecutionId) (now : Instant) (db db' : ChatDatabase) (row : TopicRow)
    → insert_topic session parent title input answer now db ≡ ok (row, db')
    → Capped db
    → Capped db'
unfolding insert_topic
insert_topic-Capped session parent title input answer now db db' row e h =
    let (locked, e1, h1) = >>=-eq-ok (lock_session session db) _ e in
    let (execution, e2, h2) =
      >>=-eq-ok (execution_for (admission_status session db.topics) answer) _ h1 in
    subst (λ (p : TopicRow × ChatDatabase). Capped p.1) (of_ok_eq h2)
      (added-IsCapped db.topics db.next_id _ refl refl h)

promote_next_queued-Capped :
    (session : SessionId) (answer : Option ExecutionId → Result String ExecutionId) (now : Instant)
    (db db' : ChatDatabase) (id : Option ℕ)
    → promote_next_queued session answer now db ≡ ok (id, db')
    → Capped db
    → Capped db'
unfolding promote_next_queued
promote_next_queued-Capped session answer now db db' id e h =
    let (locked, e1, h1) = >>=-eq-ok (lock_session session db) _ e in
    elim (Bool-cases (is_running (admission_status session db.topics))) [
      | inr t ↦
          let h2 : ◌≡◌ {A = Result ChatError (Option ℕ × ChatDatabase)} (ok (none, db))
              (ok (id, db')) =
            ground (arith, t, h1) in
          subst (λ (p : Option ℕ × ChatDatabase). Capped p.1) (of_ok_eq h2) h
      | inl t ↦
          let h2 : promote answer now (first_by (queued_in session) (λ t. t.created_at) db.topics)
                db
              ≡ ok (id, db') =
            ground (arith, t, h1) in
          elim (Option-cases (first_by (queued_in session) (λ t. t.created_at) db.topics)) [
            | inl g ↦
                let h3 : ◌≡◌ {A = Result ChatError (Option ℕ × ChatDatabase)} (ok (none, db))
                    (ok (id, db')) =
                  sym (ap (λ o. promote answer now o db) g) ∙ h2 in
                subst (λ (p : Option ℕ × ChatDatabase). Capped p.1) (of_ok_eq h3) h
            | inr (next, g) ↦
                let h3 : promote answer now (some next) db ≡ ok (id, db') =
                  sym (ap (λ o. promote answer now o db) g) ∙ h2 in
                let (execution, e4, h4) =
                  >>=-eq-ok (started (answer (parent_execution_of next.parent_id db.topics))) _
                    h3 in
                subst (λ (p : Option ℕ × ChatDatabase). Capped p.1) (of_ok_eq h4)
                  (promoted-IsCapped db.topics db.next_id next session execution now g t h)
          ]
    ]

finish-Capped :
    (id : ℕ) (status : TopicStatus) (summary : Option String) (now : Instant)
    (at_lookup db db' : ChatDatabase)
    → is_running status ≡ false
    → update_topic_status_and_move_focus id status summary now at_lookup db ≡ ok db'
    → Capped db
    → Capped db'
unfolding update_topic_status_and_move_focus
finish-Capped id status summary now at_lookup db db' k e h =
    let (topic, e1, h1) = >>=-eq-ok (topic_by_id id at_lookup) _ e in
    let (session, e2, h2) = >>=-eq-ok (lock_session topic.session_id at_lookup) _ h1 in
    let (locked, e3, h3) = >>=-eq-ok (lock_session session.id db) _ h2 in
    let (row, e4, h4) = >>=-eq-ok (topic_by_id id db) _ h3 in
    subst Capped (of_ok_eq h4) (finished-IsCapped db.topics db.next_id id status summary now k h)

set_focus-Capped :
    (session : SessionRow) (id : ℕ) (db db' : ChatDatabase)
    → set_focus session id db ≡ ok db'
    → Capped db
    → Capped db'
unfolding set_focus
set_focus-Capped session id db db' e h =
    let (topic, e1, h1) = >>=-eq-ok (topic_by_id id db) _ e in
    let (own, e2, h2) =
      >>=-eq-ok (if topic.session_id == session.id then ok topic else err (topic_not_found id)) _
        h1 in
    let (current, e3, h3) = >>=-eq-ok (lock_session session.id db) _ h2 in
    subst Capped (of_ok_eq h3) (record { below = h.below; unique = h.unique; cap = h.cap })

reset_session-Capped :
    (session : SessionId) (db db' : ChatDatabase)
    → reset_session session db ≡ ok db'
    → Capped db
    → Capped db'
unfolding reset_session
reset_session-Capped session db db' e h =
    let (locked, e1, h1) = >>=-eq-ok (lock_session session db) _ e in
    let q : TopicRow → Bool = λ t. t.session_id == locked.id in
    subst Capped (of_ok_eq h1) (record {
      below = All-delete_where (λ t. t.id < db.next_id) q db.topics h.below;
      unique = λ n. omega (arith, h.unique n, count_where-delete_where (has_id n) q db.topics);
      cap = λ s. omega (arith, h.cap s, count_where-delete_where (running_in s) q db.topics);
    })

get_or_create_session-Capped :
    (id : SessionId) (user : UserId) (now : Instant) (db : ChatDatabase)
    → Capped db
    → Capped (get_or_create_session id user now db).1
unfolding get_or_create_session
get_or_create_session-Capped id user now db h =
    elim (Option-cases (find (λ s. s.user_id == user) db.sessions)) [
      | inl g ↦
          rw (g, get_or_create_session) (record { below = h.below; unique = h.unique; cap = h.cap })
      | inr (s, g) ↦ rw (g, get_or_create_session) h
    ]

Step-Capped : {db db' : ChatDatabase} → Step db db' → Capped db → Capped db'
Step-Capped {db} (opens id user now) h = get_or_create_session-Capped id user now db h
Step-Capped {db} {db'} (creates session parent title input answer now {row} e) h =
    insert_topic-Capped session parent title input answer now db db' row e h
Step-Capped {db} {db'} (promotes session answer now {id} e) h =
    promote_next_queued-Capped session answer now db db' id e h
Step-Capped {db} {db'} (finishes id status summary now at_lookup k e) h =
    finish-Capped id status summary now at_lookup db db' k e h
Step-Capped {db} {db'} (focuses session id e) h = set_focus-Capped session id db db' e h
Step-Capped {db} {db'} (resets session e) h = reset_session-Capped session db db' e h

Reach-Capped : {db : ChatDatabase} → Reach db → Capped db
unfolding count_where
Reach-Capped start = record { below = tt; unique = λ n. omega arith; cap = λ s. omega arith }
Reach-Capped (later r st) = Step-Capped st (Reach-Capped r)

-- Whatever topics are created, promoted, finished, focused and reset, and in whatever order: at most
-- three topics of a session run, and no two topics have one id.
pub Reach-running :
    (db : ChatDatabase)
    → Reach db
    → ((session : SessionId) → count_where (running_in session) db.topics ≤ max_concurrent_topics)
      × ((n : ℕ) → count_where (λ t. eqb t.id n) db.topics ≤ 1)
Reach-running db r = let h = Reach-Capped r in (h.cap, h.unique)
