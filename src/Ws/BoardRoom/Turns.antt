-- ===== src/Ws/BoardRoom/Turns.antt =====
-- Run of BoardRoom in internal/ws/hub.go, turn by turn.
use docflow_core.Prelude.{
  ℕ, ◌≡◌, refl, sym, Bool, true, false, Option, none, some, List, [], ◌∷◌, arith, if◌then◌else◌,
}
use mathlib.Core.Path.{subst}
use docflow_core.Ws.Channel.{Message}
use docflow_core.Ws.Room.{new_room, has, drop, fanout, and_then, leave_if_empty}
use docflow_core.Ws.Room.Sound.{Fine}
use docflow_core.Ws.Room.Steps.{Inv, Fine-then, Fine-if, absent, fanout-Inv, drop-Inv, leave-Inv}
use docflow_core.Ws.Room.Turns.{
  written-Inv, joined-Sound, shutdown-Inv, more_used, new_room-Inv, is_some,
}
use docflow_core.Ws.BoardRoom.{BoardRoom, RoomEvent, on_enter, on_leave, turn}

-- A client registers once, with a channel of its own.
abbrev pub IsFirst : RoomEvent → List ℕ → Type 0
IsFirst (RoomEvent.enter c m) used = has c used ≡ false
IsFirst _ used = Unit

abbrev pub entered : RoomEvent → List ℕ → List ℕ
entered (RoomEvent.enter c m) used = c ∷ used
entered _ used = used

pub data Came : List ℕ → BoardRoom → Type 0 where
  opening : Came [] new_room
  turned :
      {used : List ℕ} {r t : BoardRoom} (e : RoomEvent)
      → Came used r
      → IsFirst e used
      → turn e r ≡ some t
      → Came (entered e used) t

enter-Inv :
    (used : List ℕ) (r : BoardRoom) (c : ℕ) (m : Message)
    → Inv used r
    → has c used ≡ false
    → Fine (Inv (c ∷ used)) (on_enter c m r)
unfolding on_enter
enter-Inv used r c m inv new =
    subst (λ b. Fine (Inv (c ∷ used)) (told b)) (sym (absent used r inv c new))
      (fanout-Inv (c ∷ used) joined joined-Inv (some c) m false)
  where
    joined : BoardRoom
    joined = record r { clients = c ∷ r.clients }

    told : Bool → Option BoardRoom
    told b =
        let t = record r { clients = if b then r.clients else c ∷ r.clients } in
        fanout (some c) m false t.clients t

    joined-Inv : Inv (c ∷ used) joined
    joined-Inv = record {
      sound = joined-Sound used r c inv new;
      registered = λ x h. ground (arith, inv.registered x);
      waiting = λ x h. inv.waiting x (ground arith);
    }

leave_if-Inv : (used : List ℕ) (r : BoardRoom) (c : ℕ) → Inv used r → Fine (Inv used) (on_leave c r)
unfolding on_leave
leave_if-Inv used r c inv = gone (has c r.clients) refl
  where
    gone :
        (b : Bool)
        → has c r.clients ≡ b
        → Fine (Inv used) (if b then and_then (drop c r) (λ t. some (leave_if_empty t)) else some r)
    gone false e = inv
    gone true e =
        Fine-then (Inv used) (Inv used) _ _ (drop-Inv used r inv c e) (λ t k. leave-Inv used t k)

turn-Inv :
    (used : List ℕ) (r : BoardRoom) (e : RoomEvent)
    → Inv used r
    → IsFirst e used
    → Fine (Inv (entered e used)) (turn e r)
unfolding turn
turn-Inv used r (RoomEvent.take c) inv new = written-Inv used r c inv
turn-Inv used r (RoomEvent.enter c m) inv new =
    Fine-if _ r.done r _ (more_used used r c inv) (enter-Inv used r c m inv new)
turn-Inv used r (RoomEvent.leave c) inv new = Fine-if _ r.done r _ inv (leave_if-Inv used r c inv)
turn-Inv used r (RoomEvent.tell m) inv new =
    Fine-if _ r.done r _ inv (fanout-Inv used r inv none m true)
turn-Inv used r RoomEvent.stop inv new = Fine-if _ r.done r _ inv (shutdown-Inv used r inv)

pub Came-Inv : (used : List ℕ) (r : BoardRoom) → Came used r → Inv used r
Came-Inv used r Came.opening = new_room-Inv
Came-Inv used t (Came.turned {used = before} {r = r} e past new done) =
    subst (Fine (Inv (entered e before))) done (turn-Inv before r e (Came-Inv before r past) new)

-- In a board room that can be reached, no event makes Run panic: nothing is sent on a closed
-- channel, and no channel is closed twice. Each client registers at most once; clients may leave, be
-- dropped or write in any order, before and after shutdown.
pub board_room_never_panics :
    (used : List ℕ) (r : BoardRoom) (e : RoomEvent)
    → Came used r
    → IsFirst e used
    → (t : BoardRoom) × (turn e r ≡ some t)
board_room_never_panics used r e past new =
    is_some _ (turn e r) (turn-Inv used r e (Came-Inv used r past) new)
