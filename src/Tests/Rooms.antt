-- ===== src/Tests/Rooms.antt =====
-- A room that one client has entered.
use docflow_core.Prelude.{◌≡◌, refl, some, false, true, if◌then◌else◌, ◌==◌, [], ◌∷◌}
use docflow_core.Ws.Room.{Room, Event, new_room, step}
use docflow_core.Ws.BoardRoom.{BoardRoom, RoomEvent, turn}
use docflow_core.Ws.BoardRoom.Turns.{Came, board_room_never_panics}
use docflow_core.Ws.Channel.{new_channel}
use docflow_core.Ws.Room.Steps.{Reached}
use docflow_core.Ws.Room.Turns.{never_panics}

abbrev entered : Room
entered = record {
  clients = 1 ∷ [];
  channels =
      λ x. if x == 1 then record { buffer = (0 ∷ 0 ∷ []) ∷ []; closed = false } else new_channel;
  stored = [];
  done = false;
}

first_entered : step (Event.register 1) new_room ≡ some entered
unfolding step
first_entered = refl

never_panics_example : (t : Room) × (step (Event.broadcast 1 (0 ∷ 2 ∷ []) true) entered ≡ some t)
never_panics_example =
    never_panics (1 ∷ []) entered (Event.broadcast 1 (0 ∷ 2 ∷ []) true)
      (Reached.next (Event.register 1) Reached.start refl first_entered) tt

abbrev watched : BoardRoom
watched = record { clients = 1 ∷ []; channels = λ x. new_channel; stored = []; done = false }

first_watched : turn (RoomEvent.enter 1 (5 ∷ [])) new_room ≡ some watched
unfolding turn
first_watched = refl

board_room_never_panics_example : (t : BoardRoom) × (turn (RoomEvent.leave 1) watched ≡ some t)
board_room_never_panics_example =
    board_room_never_panics (1 ∷ []) watched (RoomEvent.leave 1)
      (Came.turned (RoomEvent.enter 1 (5 ∷ [])) Came.opening refl first_watched) tt
