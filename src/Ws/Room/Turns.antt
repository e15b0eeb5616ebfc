-- ===== src/Ws/Room/Turns.antt =====
-- Run in internal/ws/room.go, turn by turn.
use docflow_core.Prelude.{
  ℕ, ◌≡◌, refl, sym, ap, ◌∙◌, Bool, true, false, ◌==◌, Option, none, some, List, [], ◌∷◌, arith,
  if◌then◌else◌,
}
use mathlib.Core.Path.{subst}
use docflow_core.Ws.Channel.{Message, Channel, Attempt, try_send, close, take_one}
use docflow_core.Ws.Room.{
  and_then, Room, Event, new_room, has, with_channel, drop, fanout, close_all, step, on_register,
  on_shutdown, sync_step_1, awareness_query,
}
use docflow_core.Ws.Room.Sound.{Distinct, Sound, Fine, sent-Kept}
use docflow_core.Ws.Room.Safety.{Works, try_send-Works}
use docflow_core.Ws.Room.Steps.{
  Reached, IsNew, connected, Inv, Fine-map, Fine-then, Fine-if, unregister-Inv, broadcast-Inv,
  Inv-Kept, absent, fanout-Inv, drop-Inv,
}

-- Only the channels of the clients listed differ.
abbrev Elsewhere : List ℕ → Room → Room → Type 0
Elsewhere cs r t = (x : ℕ) → has x cs ≡ false → t.channels x ≡ r.channels x

-- The clients that shutdown closes have open channels, and no other channel is touched.
close_all-opened :
    (cs : List ℕ) (r : Room)
    → Distinct cs
    → ((x : ℕ) → has x cs ≡ true → (r.channels x).closed ≡ false)
    → Fine (Elsewhere cs r) (close_all cs r)
unfolding close_all close
close_all-opened [] r h up = λ x h. refl
close_all-opened (c ∷ cs) r (fresh, h) up = subst (Fine (Elsewhere (c ∷ cs) r)) (sym now) (
    Fine-map (Elsewhere cs closed_one) (Elsewhere (c ∷ cs) r) (close_all cs closed_one)
      (close_all-opened cs closed_one h (λ x e. ground (arith, up x, fresh)))
      (λ t k x e. k x (ground arith) ∙ (ground arith)))
  where
    closed_one : Room
    closed_one = with_channel c (record (r.channels c) { closed = true }) r

    now : close_all (c ∷ cs) r ≡ close_all cs closed_one
    now = ground (arith, up c (ground arith))

take_one-closed : (ch : Channel) → (take_one ch).closed ≡ ch.closed
unfolding take_one
take_one-closed ch = taken ch.buffer
  where
    shorter : List Message → Channel
    shorter ms = elim ms [ [] ↦ ch | m ∷ rest ↦ record ch { buffer = rest } ]

    taken : (ms : List Message) → (shorter ms).closed ≡ ch.closed
    taken [] = refl
    taken (m ∷ rest) = refl

pub written-Inv :
    (used : List ℕ) (r : Room) (c : ℕ)
    → Inv used r
    → Inv used (with_channel c (take_one (r.channels c)) r)
written-Inv used r c inv = record {
  sound = record { distinct = inv.sound.distinct; opened = λ x h. taken x ∙ inv.sound.opened x h };
  registered = inv.registered;
  waiting = λ x h. taken x ∙ inv.waiting x h;
}
  where
    taken :
        (x : ℕ)
        → (if x == c then take_one (r.channels c) else r.channels x).closed ≡ (r.channels x).closed
    taken x = ground (arith, take_one-closed (r.channels c))

pub joined-Sound :
    (used : List ℕ) (r : Room) (c : ℕ)
    → Inv used r
    → has c used ≡ false
    → Sound (record r { clients = c ∷ r.clients })
joined-Sound used r c inv new = record {
  distinct = (absent used r inv c new, inv.sound.distinct);
  opened = λ x h. ground (arith, inv.sound.opened x, inv.waiting c new);
}

register-Inv :
    (used : List ℕ) (r : Room) (c : ℕ)
    → Inv used r
    → has c used ≡ false
    → Fine (Inv (c ∷ used)) (on_register c r)
unfolding on_register
register-Inv used r c inv new =
    subst (λ b. Fine (Inv (c ∷ used)) (entered b)) (sym (absent used r inv c new))
      (sent_first (try_send sync_step_1 (r.channels c))
        (try_send-Works sync_step_1 (r.channels c) (inv.waiting c new)))
  where
    joined : Room
    joined = record r { clients = c ∷ r.clients }

    greeted : Room → Attempt → Option Room
    greeted t a = elim a [
      | Attempt.panic ↦ none
      | Attempt.full ↦ and_then (drop c t) (λ u. fanout (some c) awareness_query false u.clients u)
      | Attempt.sent ch ↦ fanout (some c) awareness_query false t.clients (with_channel c ch t)
    ]

    entered : Bool → Option Room
    entered b =
        let t = record r { clients = if b then r.clients else c ∷ r.clients } in
        greeted t (try_send sync_step_1 (t.channels c))

    joined-Inv : Inv (c ∷ used) joined
    joined-Inv = record {
      sound = joined-Sound used r c inv new;
      registered = λ x h. ground (arith, inv.registered x);
      waiting = λ x h. inv.waiting x (ground arith);
    }

    sent_first : (a : Attempt) → Works (r.channels c) a → Fine (Inv (c ∷ used)) (greeted joined a)
    sent_first Attempt.panic h = h
    sent_first Attempt.full h =
        Fine-then (Inv (c ∷ used)) (Inv (c ∷ used)) (drop c joined)
          (λ u. fanout (some c) awareness_query false u.clients u)
          (drop-Inv (c ∷ used) joined joined-Inv c (ground arith))
          (λ u inv. fanout-Inv (c ∷ used) u inv (some c) awareness_query false)
    sent_first (Attempt.sent ch) h =
        fanout-Inv (c ∷ used) (with_channel c ch joined)
          (Inv-Kept (c ∷ used) joined joined-Inv (c ∷ []) (with_channel c ch joined)
            (λ x e. ground arith) (sent-Kept joined joined-Inv.sound c ch (h ∙ inv.waiting c new)))
          (some c) awareness_query false

pub shutdown-Inv : (used : List ℕ) (r : Room) → Inv used r → Fine (Inv used) (on_shutdown r)
unfolding on_shutdown
shutdown-Inv used r inv =
    Fine-then (Elsewhere r.clients r) (Inv used) (close_all r.clients r)
      (λ t. some (record t { clients = []; done = true }))
      (close_all-opened r.clients r inv.sound.distinct inv.sound.opened)
      λ t k. record {
        sound = record { distinct = tt; opened = λ x h. absurd (cc) };
        registered = λ x h. absurd (cc);
        waiting = λ x h. ap (λ ch. ch.closed) (k x (absent used r inv x h)) ∙ inv.waiting x h;
      }

pub more_used : (used : List ℕ) (r : Room) (c : ℕ) → Inv used r → Inv (c ∷ used) r
more_used used r c inv = record {
  sound = inv.sound;
  registered = λ x h. ground (arith, inv.registered x);
  waiting = λ x h. inv.waiting x (ground arith);
}

step-Inv :
    (used : List ℕ) (r : Room) (e : Event)
    → Inv used r
    → IsNew e used
    → Fine (Inv (connected e used)) (step e r)
unfolding step
step-Inv used r (Event.written c) inv new = written-Inv used r c inv
step-Inv used r (Event.register c) inv new =
    Fine-if _ r.done r _ (more_used used r c inv) (register-Inv used r c inv new)
step-Inv used r (Event.unregister c) inv new =
    Fine-if _ r.done r _ inv (unregister-Inv used r c inv)
step-Inv used r (Event.broadcast c m persisted) inv new =
    Fine-if _ r.done r _ inv (broadcast-Inv used r c m persisted inv)
step-Inv used r (Event.awareness c m) inv new =
    Fine-if _ r.done r _ inv (fanout-Inv used r inv (some c) m false)
step-Inv used r Event.shutdown inv new = Fine-if _ r.done r _ inv (shutdown-Inv used r inv)

pub new_room-Inv : Inv [] new_room
new_room-Inv = record {
  sound = record { distinct = tt; opened = λ c h. absurd (cc) };
  registered = λ x h. absurd (cc);
  waiting = λ x h. refl;
}

pub Reached-Inv : (used : List ℕ) (r : Room) → Reached used r → Inv used r
Reached-Inv used r Reached.start = new_room-Inv
Reached-Inv used t (Reached.next {used = before} {r = r} e past new done) =
    subst (Fine (Inv (connected e before))) done
      (step-Inv before r e (Reached-Inv before r past) new)

pub is_some : (P : Room → Type 0) (o : Option Room) → Fine P o → (t : Room) × (o ≡ some t)
is_some P none h = absurd h
is_some P (some t) h = (t, refl)

-- In a room that can be reached, no event makes Run panic: nothing is sent on a closed channel,
-- and no channel is closed twice. Each client registers at most once, which is what the handler
-- does; clients may leave, be dropped or write in any order, before and after shutdown.
pub never_panics :
    (used : List ℕ) (r : Room) (e : Event)
    → Reached used r
    → IsNew e used
    → (t : Room) × (step e r ≡ some t)
never_panics used r e past new =
    is_some _ (step e r) (step-Inv used r e (Reached-Inv used r past) new)
