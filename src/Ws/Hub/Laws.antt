-- ===== src/Ws/Hub/Laws.antt =====
-- What the hub needs of its rooms, and that the rooms of internal/ws/room.go and the board rooms of
-- internal/ws/hub.go have it.
use docflow_core.Ws.Channel.{take_one}
use mathlib.Core.Path.{subst}
use docflow_core.Prelude.{length, ℕ, ◌≡◌, true, Option, none, some, List, [], if◌then◌else◌, arith}
use docflow_core.Ws.Hub.{Kind}
use docflow_core.Ws.Room.{with_channel, Room, Event, new_room, step}
use docflow_core.Ws.Room.Steps.{Reached, IsNew}
use docflow_core.Ws.BoardRoom.{BoardRoom, RoomEvent, turn}
use docflow_core.Ws.BoardRoom.Turns.{Came, IsFirst}

-- `Good` rooms are those that turns can lead to, where a turn May be
-- taken, and Run does not start again.
pub record Laws {R E : Type 0} (kind : Kind R E) (Good : R → Type 0) (May : E → R → Type 0)
    : Type 0 where
  pub new_good : Good kind.new
  pub turn_good : (e : E) (r t : R) → May e r → kind.turn e r ≡ some t → Good t
  pub stays :
      (e : E) (r t : R) → kind.is_done r ≡ true → kind.turn e r ≡ some t → kind.is_done t ≡ true

-- The rooms of documents
abbrev pub doc_rooms : Kind Room Event
doc_rooms = record {
  new = new_room;
  turn = step;
  is_done = λ r. r.done;
  size = λ r. length r.clients;
}

-- The rooms of boards
abbrev pub board_rooms : Kind BoardRoom RoomEvent
board_rooms = record {
  new = new_room;
  turn = turn;
  is_done = λ r. r.done;
  size = λ r. length r.clients;
}

abbrev pub IsReached : Room → Type 0
IsReached r = (used : List ℕ) × Reached used r

abbrev pub MayStep : Event → Room → Type 0
MayStep e r = (used : List ℕ) × Reached used r × IsNew e used

abbrev pub HasCome : BoardRoom → Type 0
HasCome r = (used : List ℕ) × Came used r

abbrev pub MayTurn : RoomEvent → BoardRoom → Type 0
MayTurn e r = (used : List ℕ) × Came used r × IsFirst e used

taken-done :
    (c : ℕ) (r t : Room)
    → r.done ≡ true
    → some (with_channel c (take_one (r.channels c)) r) ≡ some t
    → t.done ≡ true
taken-done c r t h k = subst (λ o. elim o [ none ↦ Unit {0} | some u ↦ u.done ≡ true ]) k h

skipped-done :
    (r t : Room) (o : Option Room)
    → r.done ≡ true
    → (if r.done then some r else o) ≡ some t
    → t.done ≡ true
skipped-done r t o h k = ground (arith, h, k)

step-done : (e : Event) (r t : Room) → r.done ≡ true → step e r ≡ some t → t.done ≡ true
unfolding step
step-done (Event.written c) r t h k = taken-done c r t h k
step-done (Event.register c) r t h k = skipped-done r t _ h k
step-done (Event.unregister c) r t h k = skipped-done r t _ h k
step-done (Event.broadcast c m p) r t h k = skipped-done r t _ h k
step-done (Event.awareness c m) r t h k = skipped-done r t _ h k
step-done Event.shutdown r t h k = skipped-done r t _ h k

turn-done : (e : RoomEvent) (r t : BoardRoom) → r.done ≡ true → turn e r ≡ some t → t.done ≡ true
unfolding turn
turn-done (RoomEvent.take c) r t h k = taken-done c r t h k
turn-done (RoomEvent.enter c m) r t h k = skipped-done r t _ h k
turn-done (RoomEvent.leave c) r t h k = skipped-done r t _ h k
turn-done (RoomEvent.tell m) r t h k = skipped-done r t _ h k
turn-done RoomEvent.stop r t h k = skipped-done r t _ h k

pub doc_rooms-Laws : Laws doc_rooms IsReached MayStep
doc_rooms-Laws = record {
  new_good = ([], Reached.start);
  turn_good = λ e r t (used, past, new) h. (_, Reached.next e past new h);
  stays = step-done;
}

pub board_rooms-Laws : Laws board_rooms HasCome MayTurn
board_rooms-Laws = record {
  new_good = ([], Came.opening);
  turn_good = λ e r t (used, past, new) h. (_, Came.turned e past new h);
  stays = turn-done;
}
