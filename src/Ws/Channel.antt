-- ===== src/Ws/Channel.antt =====
-- The buffered channel `send` of a client: internal/ws/client.go. A room never waits on it: each
-- send stands in a `select` with a `default`. In Go a send on a closed channel and a second close
-- panic, and so they do here.
use docflow_core.Prelude.{
  ℕ, Bool, true, false, Option, none, some, List, [], ◌∷◌, ◌++◌, length, ltb, if◌then◌else◌,
}

-- The bytes of a WebSocket message
abbrev pub Message : Type 0
Message = List ℕ

pub record Channel : Type 0 where
  pub buffer : List Message
  pub closed : Bool

-- `make(chan []byte, 256)`
abbrev pub capacity : ℕ
capacity = 256

abbrev pub new_channel : Channel
new_channel = record { buffer = []; closed = false }

-- What comes of `select { case ch <- m: default: }`
pub data Attempt : Type 0 where
  panic full : Attempt
  sent : Channel → Attempt

unfoldable pub try_send : Message → Channel → Attempt
try_send m ch =
    if ch.closed
    then Attempt.panic
    else (if ltb (length ch.buffer) capacity
        then Attempt.sent (record ch { buffer = ch.buffer ++ (m ∷ []) })
        else Attempt.full)

-- `close(ch)`, where none is a panic
unfoldable pub close : Channel → Option Channel
close ch = if ch.closed then none else some (record ch { closed = true })

-- `m, ok := <-ch` in WritePump: a message that has been taken is no longer buffered.
unfoldable pub take_one : Channel → Channel
take_one ch = elim ch.buffer [ [] ↦ ch | m ∷ ms ↦ record ch { buffer = ms } ]
