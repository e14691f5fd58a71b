-- ===== src/Events/Examples.antt =====
-- A stream that an event reaches late, and the theorem at it.
use zoo.Base.{string_eq, nat_eq, ◌≡◌, refl, none, some, [], ◌∷◌, arith, keep}
use zoo.Base.Dict.{get, put, Distinct}
use zoo.Labels.{Store}
use zoo.Sandboxes.{Member}
use zoo.Events.{
  Event, Query, list_page, latest_event_seq, purge_events, page, late, list_events,
  list_late_events, visible, allows, stragglers, read, told_late, told, turn, send,
}
use zoo.Events.Sorted.{insert_event}
use zoo.Events.Stream.{World, begun, turned, Reach, here, next, commit, turns, stream_lem}

abbrev user : Member
user = record { workspace_id = "w1"; key_sandbox_id = none; key_labels = none }

abbrev query : Query
query = record { user = user; sandbox_id = none; event_type = none }

abbrev label_store : Store
label_store = record { sandbox_labels = []; usage_labels = [] }

abbrev event : Event
event = record {
  workspace_id = "w1";
  sandbox_id = some "s1";
  event_type = "sandbox.state";
  «data» = "{}";
  created_at = 100;
}

abbrev other : Event
other = record event { workspace_id = "w2" }

page_run :
    list_page query label_store 0 ((1, event) ∷ (2, other) ∷ (4, event) ∷ [])
    ≡ ((1, event) ∷ (4, event) ∷ [], 4)
unfolding list_page page list_events visible allows keep
page_run = refl

key_run :
    list_page
      (record query { user = record user { key_sandbox_id = some "s2" } })
      label_store
      0
      ((1, event) ∷ [])
    ≡ ([], 1)
unfolding list_page page list_events visible allows keep
key_run = refl

latest_run : latest_event_seq "w1" ((1, event) ∷ (2, other) ∷ []) ≡ 1
unfolding latest_event_seq
latest_run = refl

purge_run :
    purge_events 101 ((1, event) ∷ (2, record event { created_at = 101 }) ∷ [])
    ≡ (2, record event { created_at = 101 }) ∷ []
unfolding purge_events keep
purge_run = refl

-- Event 3 is sent; then event 2, which was made before, is committed, and the next turn sends it.
abbrev opening : World
opening = begun ((1, event) ∷ (3, event) ∷ []) 110 1

abbrev caught_up : World
caught_up = record {
  table = (1, event) ∷ (2, event) ∷ (3, event) ∷ [];
  clock = 112;
  horizon = 112;
  stream = record { after = 3; floor = 1; sent = (3, 100) ∷ []; known = []; log = (3, 100) ∷ [] };
}

caught_up-Reach : Reach query label_store opening caught_up
unfolding turn told told_late read stragglers page list_events visible allows send keep get put
    insert_event
caught_up-Reach = next (next here (turns 2)) (commit 2 event refl refl)

late_run : (turned query label_store 1 caught_up).stream.log ≡ (2, 100) ∷ (3, 100) ∷ []
unfolding turn told told_late read stragglers page late list_late_events list_events visible allows
    send keep get put
late_run = refl

stream_lem_example :
    Distinct (turned query label_store 1 caught_up).stream.log
    × (get (turned query label_store 1 caught_up).stream.log 2 ≡ some 100)
unfolding turn told told_late read stragglers page late list_late_events list_events visible allows
    send keep get put
stream_lem_example =
    stream_lem query label_store ((1, event) ∷ (3, event) ∷ []) 110 1 caught_up 1 2 event
      ((omega arith, tt), (tt, tt)) caught_up-Reach (omega arith) refl refl refl (omega arith)
      (omega arith) refl
