-- ===== src/Ws/BoardRoom.antt =====
-- internal/ws/hub.go: BoardRoom as a state machine, in steps as those of Room. The state is that of
-- a Room that stores nothing, so that the loops over the clients are the same.
pub mod Turns
use docflow_core.Prelude.{ℕ, Bool, true, false, Option, none, some, List, [], ◌∷◌, if◌then◌else◌}
use docflow_core.Ws.Channel.{Message, take_one}
use docflow_core.Ws.Room
use docflow_core.Ws.Room.{
  Room, has, with_channel, drop, fanout, and_then, leave_if_empty, on_shutdown,
}

abbrev pub BoardRoom : Type 0
BoardRoom = Room

-- What Run receives. The message of a registration tells who has joined.
pub data RoomEvent : Type 0 where
  enter : ℕ → Message → RoomEvent
  leave : ℕ → RoomEvent
  tell : Message → RoomEvent
  stop : RoomEvent
  take : ℕ → RoomEvent

-- `case client := <-r.register`
unfoldable pub on_enter : ℕ → Message → BoardRoom → Option BoardRoom
unfolding fanout
on_enter c m r =
    let joined = record r { clients = if has c r.clients then r.clients else c ∷ r.clients } in
    fanout (some c) m false joined.clients joined

-- `case client := <-r.unregister`
unfoldable pub on_leave : ℕ → BoardRoom → Option BoardRoom
unfolding drop
on_leave c r =
    if has c r.clients then and_then (drop c r) (λ t. some (leave_if_empty t)) else some r

-- A turn of Run, where none is a panic
unfoldable pub turn : RoomEvent → BoardRoom → Option BoardRoom
unfolding on_enter on_leave fanout on_shutdown take_one
turn (RoomEvent.take c) r = some (with_channel c (take_one (r.channels c)) r)
turn (RoomEvent.enter c m) r = if r.done then some r else on_enter c m r
turn (RoomEvent.leave c) r = if r.done then some r else on_leave c r
turn (RoomEvent.tell m) r = if r.done then some r else fanout none m true r.clients r
turn RoomEvent.stop r = if r.done then some r else on_shutdown r
