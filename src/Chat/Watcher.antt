-- ===== src/Chat/Watcher.antt =====
-- services/chat/src/topic_watcher.rs: which events of the engine a watcher has seen already. A hash
-- set is the test of its members.
pub mod Recent
use ai_engineering_boilerpla.Base.{
  ℕ, String, Bool, true, false, not, ◌&&◌, ◌||◌, List, [], ◌∷◌, ◌++◌, ◌==◌, length, ltb,
  if◌then◌else◌,
}

abbrev pub max_remembered_event_ids : ℕ
max_remembered_event_ids = 1_024

pub record RecentEventIds : Type 0 where
  pub ids : String → Bool
  pub order : List String

abbrev pub nothing_seen : RecentEventIds
nothing_seen = record { ids = λ e. false; order = [] }

-- `pop_front` and `remove`.
abbrev pub forget_oldest : (String → Bool) → List String → RecentEventIds
forget_oldest ids [] = record { ids = ids; order = [] }
forget_oldest ids (oldest ∷ order) = record { ids = λ e. not (oldest == e) && ids e; order = order }

unfoldable pub remember : String → RecentEventIds → Bool × RecentEventIds
remember id r =
    if r.ids id
    then (false, r)
    else (let order = r.order ++ id ∷ [] in
        let ids : String → Bool = λ e. (id == e) || r.ids e in
        (
          true,
          (if ltb max_remembered_event_ids (length order)
              then forget_oldest ids order
              else record { ids = ids; order = order }),
        ))

-- The events of a stream: which of them are handled, and what is remembered then.
unfoldable pub handled : List String → RecentEventIds → List String × RecentEventIds
unfolding remember
handled [] r = ([], r)
handled (id ∷ later) r =
    let (is_new, r') = remember id r in
    let (others, r'') = handled later r' in (if is_new then id ∷ others else others, r'')
