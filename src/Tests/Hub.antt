-- ===== src/Tests/Hub.antt =====
-- A document whose room ends, is removed and is made anew.
use docflow_core.Prelude.{ℕ, ◌≡◌, refl, true, [], arith}
use docflow_core.Ws.Room.{close_all, on_shutdown, step, Room, Event, new_room}
use docflow_core.Ws.Room.Steps.{Reached}
use docflow_core.Ws.Hub.{Hub, Ran, Step, new_hub, make_room, remove_room, with_room, get_or_create}
use docflow_core.Ws.Hub.Laws.{doc_rooms, MayStep}
use docflow_core.Ws.Hub.Rooms.{one_room_each}

abbrev opened : Hub Room
opened = (make_room doc_rooms 5 (new_hub doc_rooms)).1

abbrev ended : Hub Room
ended = with_room doc_rooms 0 (record new_room { done = true }) opened

abbrev removed : Hub Room
removed = remove_room doc_rooms 0 ended

abbrev reopened : Hub Room
reopened = (make_room doc_rooms 5 removed).1

reopened-Ran : Ran doc_rooms MayStep reopened
unfolding make_room step on_shutdown close_all
reopened-Ran =
    Ran.then
      (Ran.then
        (Ran.then (Ran.then Ran.start (Step.made 5 (new_hub doc_rooms)))
          (Step.ran 0 Event.shutdown opened ended (omega arith) ([], Reached.start, tt) refl))
        (Step.removed 0 ended (omega arith) refl))
      (Step.made 5 removed)

abbrev second : ℕ
second = 1

one_room_each_example :
    (second ≡ second) × ((get_or_create doc_rooms (reopened.names 1) reopened).0 ≡ 1)
unfolding make_room remove_room
one_room_each_example =
    one_room_each reopened 1 1 reopened-Ran (omega arith) (omega arith) refl refl refl
