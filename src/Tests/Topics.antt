-- ===== src/Tests/Topics.antt =====
-- The topics of a session at a concrete run.
use ai_engineering_boilerpla.Base.{ℕ, ◌≤◌, String, ◌≡◌, refl, Option, none, List, [], ◌∷◌, eqb, map}
use ai_engineering_boilerpla.Base.Results.{ok}
use ai_engineering_boilerpla.Base.Tables.{count_where, first_by, update_where}
use ai_engineering_boilerpla.Json.{null}
use ai_engineering_boilerpla.Chat.Rows.{
  ChatDatabase, TopicRow, running, queued, completed, SessionId,
}
use ai_engineering_boilerpla.Chat.Topics.{
  max_concurrent_topics, running_in, insert_topic, promote_next_queued, get_or_create_session,
  lock_session, admission_status, parent_execution_of,
}
use ai_engineering_boilerpla.Chat.Focus.{
  update_topic_status_and_move_focus, move_focus_off_completed,
}
use ai_engineering_boilerpla.Chat.Topics.Cap.{
  opens, creates, promotes, finishes, Reach, start, later, Reach-running,
}
use ai_engineering_boilerpla.Base.{length, any, ◌==◌, if◌then◌else◌}
use ai_engineering_boilerpla.Chat.Watcher.{
  handled, remember, nothing_seen, max_remembered_event_ids,
}
use ai_engineering_boilerpla.Chat.Watcher.Recent.{IsRecent, times_in, handled_once}
use ai_engineering_boilerpla.Tests.Workers.{pick}

abbrev no_topics : ChatDatabase
no_topics = record { sessions = []; topics = []; next_id = 0 }

unfoldable opened : ChatDatabase
unfolding get_or_create_session
opened = (get_or_create_session "s" "u" 1 no_topics).1

abbrev no_row : TopicRow
no_row = record {
  id = 0;
  session_id = "";
  parent_id = none;
  title = "";
  status = queued;
  execution_id = none;
  input_json = null;
  result_summary = none;
  artifact_ids = null;
  created_at = 0;
  updated_at = 0;
}

-- A new topic in a session that the engine would run as `x`.
unfoldable with_topic : ℕ → ChatDatabase → TopicRow × ChatDatabase
unfolding insert_topic
with_topic now db = pick (no_row, db) (insert_topic "s" none "t" null (ok "x") now db)

unfoldable four : ChatDatabase
unfolding opened with_topic
four = (with_topic 5 (with_topic 4 (with_topic 3 (with_topic 2 opened).1).1).1).1

-- The fourth topic waits.
four_statuses :
    map (λ (t : TopicRow). t.status) four.topics ≡ running ∷ running ∷ running ∷ queued ∷ []
unfolding four with_topic opened get_or_create_session insert_topic admission_status lock_session
    count_where update_where
four_statuses = refl

four_reached : Reach four
unfolding four with_topic opened get_or_create_session insert_topic admission_status lock_session
    count_where update_where
four_reached =
    later
      (later
        (later (later (later start (opens "s" "u" 1)) (creates "s" none "t" null (ok "x") 2 refl))
          (creates "s" none "t" null (ok "x") 3 refl))
        (creates "s" none "t" null (ok "x") 4 refl))
      (creates "s" none "t" null (ok "x") 5 refl)

unfoldable first_done : ChatDatabase
unfolding four update_topic_status_and_move_focus
first_done = pick four (update_topic_status_and_move_focus 0 completed none 6 four four)

unfoldable promoted_one : Option ℕ × ChatDatabase
unfolding first_done promote_next_queued
promoted_one = pick (none, first_done) (promote_next_queued "s" (λ parent. ok "y") 7 first_done)

promoted_reached : Reach promoted_one.1
unfolding promoted_one first_done four with_topic opened get_or_create_session insert_topic
    admission_status lock_session count_where update_where update_topic_status_and_move_focus
    promote_next_queued move_focus_off_completed first_by parent_execution_of
promoted_reached =
    later (later four_reached (finishes 0 completed none 6 four refl refl))
      (promotes "s" (λ parent. ok "y") 7 {id = promoted_one.0} refl)

Reach-running_example :
    ((session : SessionId)
      → count_where (running_in session) promoted_one.1.topics ≤ max_concurrent_topics)
    × ((n : ℕ) → count_where (λ (t : TopicRow). eqb t.id n) promoted_one.1.topics ≤ 1)
Reach-running_example = Reach-running promoted_one.1 promoted_reached

-- A watcher that meets an event again after a reconnect.
abbrev events_seen : List String
events_seen = "a" ∷ "b" ∷ "a" ∷ []

seen_again : (handled events_seen nothing_seen).0 ≡ "a" ∷ "b" ∷ []
unfolding handled remember
seen_again = refl

handled_once_example :
    IsRecent (handled events_seen nothing_seen).1
    × (length events_seen ≤ max_remembered_event_ids
        → (e : String)
        → times_in e (handled events_seen nothing_seen).0
          ≡ (if any (λ o. o == e) events_seen then 1 else 0))
handled_once_example = handled_once events_seen
