-- ===== src/Ws/Hub/Rooms.antt =====
-- internal/ws/hub.go: Hub, with the rooms of documents and of boards.
use docflow_core.Prelude.{Option, none, ◌<◌, ℕ, ◌≡◌, false, some}
use docflow_core.Ws.Room.{Room}
use docflow_core.Ws.BoardRoom.{BoardRoom, RoomEvent}
use docflow_core.Ws.Channel.{Message}
use docflow_core.Ws.Hub.{Hub, Ran, find_room, run, get_or_create}
use docflow_core.Ws.Hub.Laws.{
  doc_rooms, board_rooms, IsReached, MayStep, HasCome, MayTurn, doc_rooms-Laws, board_rooms-Laws,
}
use docflow_core.Ws.Hub.Steps.{one_live_room}

-- BroadcastToBoard, with the bytes of the event, up to the turn in which the room takes them
unfoldable pub broadcast_to_board : ℕ → Message → Hub BoardRoom → Option (Hub BoardRoom)
broadcast_to_board board m h = elim (find_room board_rooms board h) [
  | none ↦ some h
  | some e ↦ run board_rooms e.handle (RoomEvent.tell m) h
]

-- In every hub that can be reached, whatever the order in which rooms are asked for, run, end and are
-- removed, a document has at most one room whose Run has not returned: two such rooms of one
-- document are the same, and GetOrCreateDocRoom returns that room.
pub one_room_each :
    (h : Hub Room) (i j : ℕ)
    → Ran doc_rooms MayStep h
    → i < h.next
    → j < h.next
    → (h.rooms i).done ≡ false
    → (h.rooms j).done ≡ false
    → h.names i ≡ h.names j
    → (i ≡ j) × ((get_or_create doc_rooms (h.names i) h).0 ≡ i)
one_room_each = one_live_room doc_rooms IsReached MayStep doc_rooms-Laws

-- The same of the rooms of boards.
one_board_room_each :
    (h : Hub BoardRoom) (i j : ℕ)
    → Ran board_rooms MayTurn h
    → i < h.next
    → j < h.next
    → (h.rooms i).done ≡ false
    → (h.rooms j).done ≡ false
    → h.names i ≡ h.names j
    → (i ≡ j) × ((get_or_create board_rooms (h.names i) h).0 ≡ i)
one_board_room_each = one_live_room board_rooms HasCome MayTurn board_rooms-Laws
