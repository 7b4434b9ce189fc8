-- ===== src/Chat/Topics.antt =====
-- services/chat/src/topic_manager.rs, topic_queue.rs and session_manager.rs: how topics are
-- admitted, queued and promoted. What the engine answers to a start is
-- a parameter.
pub mod Room
pub mod Cap
use ai_engineering_boilerpla.Base.{
  ℕ, ◌+◌, String, Bool, true, false, not, ◌&&◌, ◌||◌, Option, none, some, List, [], ◌∷◌, ◌++◌, ◌==◌,
  find, ltb, eqb, if◌then◌else◌,
}
use ai_engineering_boilerpla.Base.Results.{Result, ok, err, ◌>>=◌}
use ai_engineering_boilerpla.Base.Tables.{first_by, update_where, count_where, delete_where}
use ai_engineering_boilerpla.Json.{Value, array, nil}
use ai_engineering_boilerpla.EngineCore.Graph.{Instant, UserId}
use ai_engineering_boilerpla.EngineCore.Execution.{ExecutionId}
use ai_engineering_boilerpla.Chat.Rows.{
  TopicStatus, queued, running, completed, failed, cancelled, SessionId, TopicRow, SessionRow,
  ChatDatabase, ChatError, topic_not_found, session_vanished, engine_failed,
}

abbrev pub max_concurrent_topics : ℕ
max_concurrent_topics = 3

abbrev pub is_running : TopicStatus → Bool
is_running running = true
is_running _ = false

abbrev pub is_queued : TopicStatus → Bool
is_queued queued = true
is_queued _ = false

abbrev pub is_completed : TopicStatus → Bool
is_completed completed = true
is_completed _ = false

abbrev pub running_in : SessionId → TopicRow → Bool
running_in session t = t.session_id == session && is_running t.status

abbrev pub queued_in : SessionId → TopicRow → Bool
queued_in session t = t.session_id == session && is_queued t.status

unfoldable pub admission_status : SessionId → List TopicRow → TopicStatus
admission_status session topics =
    if ltb (count_where (running_in session) topics) max_concurrent_topics then running else queued

abbrev pub present : {A : Type 0} → ChatError → Option A → Result ChatError A
present error (some a) = ok a
present error none = err error

unfoldable pub lock_session : SessionId → ChatDatabase → Result ChatError SessionRow
lock_session id db = present session_vanished (find (λ s. s.id == id) db.sessions)

abbrev pub topic_by_id : ℕ → ChatDatabase → Result ChatError TopicRow
topic_by_id id db = present (topic_not_found id) (find (λ t. eqb t.id id) db.topics)

-- `id` is the new UUID.
unfoldable pub get_or_create_session :
    SessionId → UserId → Instant → ChatDatabase → SessionRow × ChatDatabase
get_or_create_session id user now db = elim (find (λ s. s.user_id == user) db.sessions) [
  | some existing ↦ (existing, db)
  | none ↦
      let created : SessionRow = record {
        id = id;
        user_id = user;
        focus_topic_id = none;
        created_at = now;
      } in
      (created, record db { sessions = db.sessions ++ created ∷ [] })
]

abbrev pub started : Result String ExecutionId → Result ChatError ExecutionId
started (ok execution) = ok execution
started (err e) = err (engine_failed e)

-- The engine is asked only for a topic that runs at once.
abbrev pub execution_for :
    TopicStatus → Result String ExecutionId → Result ChatError (Option ExecutionId)
execution_for running answer = started answer >>= λ execution. ok (some execution)
execution_for _ answer = ok none

abbrev pub focused_first : SessionRow → ℕ → List SessionRow → List SessionRow
focused_first locked id sessions = elim locked.focus_topic_id [
  | some focus ↦ sessions
  | none ↦
      update_where (λ s. s.id == locked.id) (λ s. record s { focus_topic_id = some id }) sessions
]

unfoldable pub insert_topic :
    SessionId
    → Option ℕ
    → String
    → Value
    → Result String ExecutionId
    → Instant
    → ChatDatabase
    → Result ChatError (TopicRow × ChatDatabase)
unfolding lock_session admission_status
insert_topic session parent_id title input answer now db = do
  locked ← lock_session session db
  let status = admission_status session db.topics
  execution ← execution_for status answer
  let row : TopicRow = record {
    id = db.next_id;
    session_id = session;
    parent_id = parent_id;
    title = title;
    status = status;
    execution_id = execution;
    input_json = input;
    result_summary = none;
    artifact_ids = array nil;
    created_at = now;
    updated_at = now;
  }
  ok (
    row,
    record {
      sessions = focused_first locked row.id db.sessions;
      topics = db.topics ++ row ∷ [];
      next_id = db.next_id + 1;
    },
  )

abbrev pub execution_of : Option TopicRow → Option ExecutionId
execution_of (some t) = t.execution_id
execution_of none = none

unfoldable pub parent_execution_of : Option ℕ → List TopicRow → Option ExecutionId
parent_execution_of none topics = none
parent_execution_of (some parent) topics = execution_of (find (λ t. eqb t.id parent) topics)

abbrev pub promoted : ExecutionId → Instant → TopicRow → TopicRow
promoted execution now t = record t {
  status = running;
  execution_id = some execution;
  updated_at = now;
}

-- The engine answers to what the topic continues.
abbrev pub promote :
    (Option ExecutionId → Result String ExecutionId)
    → Instant
    → Option TopicRow
    → ChatDatabase
    → Result ChatError (Option ℕ × ChatDatabase)
promote answer now none db = ok (none, db)
promote answer now (some next) db = do
  execution ← started (answer (parent_execution_of next.parent_id db.topics))
  ok (
    some next.id,
    record db { topics = update_where (λ t. eqb t.id next.id) (promoted execution now) db.topics },
  )

unfoldable pub promote_next_queued :
    SessionId
    → (Option ExecutionId → Result String ExecutionId)
    → Instant
    → ChatDatabase
    → Result ChatError (Option ℕ × ChatDatabase)
unfolding lock_session admission_status
promote_next_queued session answer now db = do
  locked ← lock_session session db
  (if is_running (admission_status session db.topics)
      then promote answer now (first_by (queued_in session) (λ t. t.created_at) db.topics) db
      else ok (none, db))
