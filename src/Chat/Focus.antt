-- ===== src/Chat/Focus.antt =====
-- services/chat/src/topic_focus.rs, and the reset of topic_manager.rs: how topics end, and which one
-- the user talks about.
use ai_engineering_boilerpla.Base.{
  ℕ, String, Bool, false, ◌||◌, Option, none, some, List, ◌==◌, eqb, if◌then◌else◌,
}
use ai_engineering_boilerpla.Base.Results.{Result, ok, err, ◌>>=◌}
use ai_engineering_boilerpla.Base.Tables.{first_by, update_where, delete_where}
use ai_engineering_boilerpla.EngineCore.Graph.{Instant}
use ai_engineering_boilerpla.Chat.Rows.{
  TopicStatus, SessionId, TopicRow, SessionRow, ChatDatabase, ChatError, topic_not_found,
}
use ai_engineering_boilerpla.Chat.Topics.{
  lock_session, topic_by_id, running_in, queued_in, is_completed,
}

abbrev pub finished : TopicStatus → Option String → Instant → TopicRow → TopicRow
finished status summary now t = record t {
  status = status;
  result_summary = summary;
  updated_at = now;
}

abbrev pub same_topic : Option ℕ → ℕ → Bool
same_topic (some focus) id = eqb focus id
same_topic none id = false

abbrev pub id_of : Option TopicRow → Option ℕ
id_of (some t) = some t.id
id_of none = none

-- The session's new focus, when it was on the completed topic.
unfoldable pub move_focus_off_completed :
    SessionRow → ℕ → List TopicRow → List SessionRow → List SessionRow
move_focus_off_completed session completed_id topics sessions =
    if same_topic session.focus_topic_id completed_id
    then update_where (λ s. s.id == session.id)
        (λ s. record s {
          focus_topic_id = id_of (
              first_by (λ t. running_in session.id t || queued_in session.id t) (λ t. t.created_at)
                topics);
        })
        sessions
    else sessions

-- The session is looked up before the transaction starts.
unfoldable pub update_topic_status_and_move_focus :
    ℕ
    → TopicStatus
    → Option String
    → Instant
    → ChatDatabase
    → ChatDatabase
    → Result ChatError ChatDatabase
unfolding lock_session move_focus_off_completed
update_topic_status_and_move_focus id status summary now at_lookup db = do
  topic ← topic_by_id id at_lookup
  session ← lock_session topic.session_id at_lookup
  locked ← lock_session session.id db
  row ← topic_by_id id db
  let topics = update_where (λ t. eqb t.id id) (finished status summary now) db.topics
  ok (record db {
    topics = topics;
    sessions =
        if is_completed status
        then move_focus_off_completed locked id topics db.sessions
        else db.sessions;
  })

-- The session is read before the topic, and written after it.
unfoldable pub set_focus : SessionRow → ℕ → ChatDatabase → Result ChatError ChatDatabase
unfolding lock_session
set_focus session id db = do
  topic ← topic_by_id id db
  own ← (if topic.session_id == session.id then ok topic else err (topic_not_found id))
  current ← lock_session session.id db
  ok (record db {
    sessions =
        update_where (λ s. s.id == current.id) (λ s. record s { focus_topic_id = some own.id })
          db.sessions;
  })

-- Without the messages and the events that go with the topics.
unfoldable pub reset_session : SessionId → ChatDatabase → Result ChatError ChatDatabase
unfolding lock_session
reset_session session db = do
  locked ← lock_session session db
  ok (record db {
    topics = delete_where (λ t. t.session_id == locked.id) db.topics;
    sessions = delete_where (λ s. s.id == locked.id) db.sessions;
  })
