-- ===== src/Ws/Room.antt =====
-- internal/ws/room.go: Room as a state machine. One step is one turn of the loop in Run, or a
-- message that a WritePump takes from a channel. Clients are numbered as they connect.
pub mod Sound
pub mod Safety
pub mod Steps
pub mod Turns
use docflow_core.Prelude.{
  ℕ, Bool, true, false, Option, none, some, List, [], ◌∷◌, ◌==◌, if◌then◌else◌, exists_row,
  delete_rows,
}
use docflow_core.Ws.Channel.{Message, Channel, Attempt, new_channel, try_send, close, take_one}

-- `done` says that Run has returned. The channels are those of all clients, in the room or not.
pub record Room : Type 0 where
  pub clients : List ℕ
  pub channels : ℕ → Channel
  pub stored : List Message
  pub done : Bool

-- NewRoom, where no client has connected yet
abbrev pub new_room : Room
new_room = record { clients = []; channels = λ c. new_channel; stored = []; done = false }

-- `_, ok := r.clients[c]`
abbrev pub has : ℕ → List ℕ → Bool
has c = exists_row (λ x. x == c)

abbrev pub with_channel : ℕ → Channel → Room → Room
with_channel c ch r = record r { channels = λ x. if x == c then ch else r.channels x }

-- `delete(r.clients, c); close(c.send)`, in either order
unfoldable pub drop : ℕ → Room → Option Room
unfolding close
drop c r = elim (close (r.channels c)) [
  | none ↦ none
  | some ch ↦ some (with_channel c ch (record r { clients = delete_rows (λ x. x == c) r.clients }))
]

abbrev pub is_sender : Option ℕ → ℕ → Bool
is_sender none c = false
is_sender (some s) c = s == c

-- One turn of the loop in fanout
unfoldable pub offer : Option ℕ → Message → Bool → ℕ → Room → Option Room
unfolding try_send drop
offer sender m drop_on_full c r =
    if is_sender sender c then some r else elim (try_send m (r.channels c)) [
      | Attempt.panic ↦ none
      | Attempt.sent ch ↦ some (with_channel c ch r)
      | Attempt.full ↦ if drop_on_full then drop c r else some r
    ]

abbrev pub and_then : Option Room → (Room → Option Room) → Option Room
and_then none f = none
and_then (some r) f = f r

-- fanout, over the clients that the loop has still to visit
unfoldable pub fanout : Option ℕ → Message → Bool → List ℕ → Room → Option Room
unfolding offer
fanout sender m drop_on_full [] r = some r
fanout sender m drop_on_full (c ∷ cs) r =
    and_then (offer sender m drop_on_full c r) (λ t. fanout sender m drop_on_full cs t)

-- The loop over the clients at shutdown
unfoldable pub close_all : List ℕ → Room → Option Room
unfolding close
close_all [] r = some r
close_all (c ∷ cs) r = elim (close (r.channels c)) [
  | none ↦ none
  | some ch ↦ close_all cs (with_channel c ch r)
]

-- What Run receives. A broadcast comes with whether PersistUpdate stores it.
pub data Event : Type 0 where
  register unregister : ℕ → Event
  broadcast : ℕ → Message → Bool → Event
  awareness : ℕ → Message → Event
  shutdown : Event
  written : ℕ → Event

abbrev pub sync_step_1 : Message
sync_step_1 = 0 ∷ 0 ∷ []

abbrev pub awareness_query : Message
awareness_query = 1 ∷ 0 ∷ []

abbrev pub null_awareness : Message
null_awareness = 1 ∷ []

-- `case client := <-r.register`
unfoldable pub on_register : ℕ → Room → Option Room
unfolding try_send drop fanout
on_register c r =
    let joined = record r { clients = if has c r.clients then r.clients else c ∷ r.clients } in
    elim (try_send sync_step_1 (joined.channels c)) [
      | Attempt.panic ↦ none
      | Attempt.full ↦
          and_then (drop c joined) (λ t. fanout (some c) awareness_query false t.clients t)
      | Attempt.sent ch ↦
          fanout (some c) awareness_query false joined.clients (with_channel c ch joined)
    ]

-- The end of `case client := <-r.unregister`
abbrev pub leave_if_empty : Room → Room
leave_if_empty r = elim r.clients [ [] ↦ record r { done = true } | c ∷ cs ↦ r ]

-- `case client := <-r.unregister`
unfoldable pub on_unregister : ℕ → Room → Option Room
unfolding drop fanout
on_unregister c r =
    if has c r.clients
    then and_then (drop c r) (λ t.
      and_then (fanout none null_awareness false t.clients t) (λ u. some (leave_if_empty u)))
    else some r

-- `case msg := <-r.broadcast`
unfoldable pub on_broadcast : ℕ → Message → Bool → Room → Option Room
unfolding fanout
on_broadcast sender m persisted r =
    if persisted
    then (let t = record r { stored = m ∷ r.stored } in fanout (some sender) m true t.clients t)
    else some r

-- `case <-r.shutdown`
unfoldable pub on_shutdown : Room → Option Room
unfolding close_all
on_shutdown r =
    and_then (close_all r.clients r) (λ t. some (record t { clients = []; done = true }))

-- A turn of Run, where none is a panic. After Run has returned, only the WritePumps go on.
unfoldable pub step : Event → Room → Option Room
unfolding on_register on_unregister on_broadcast fanout on_shutdown take_one
step (Event.written c) r = some (with_channel c (take_one (r.channels c)) r)
step (Event.register c) r = if r.done then some r else on_register c r
step (Event.unregister c) r = if r.done then some r else on_unregister c r
step (Event.broadcast c m persisted) r = if r.done then some r else on_broadcast c m persisted r
step (Event.awareness c m) r = if r.done then some r else fanout (some c) m false r.clients r
step Event.shutdown r = if r.done then some r else on_shutdown r
