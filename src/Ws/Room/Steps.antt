-- ===== src/Ws/Room/Steps.antt =====
-- The rooms that can be reached, where each client registers once, and what the steps that end
-- with a client keep.
use docflow_core.Prelude.{
  ℕ, ◌≡◌, refl, ap, ◌∙◌, Bool, true, false, Option, none, some, List, [], ◌∷◌, arith, if◌then◌else◌,
}
use docflow_core.Ws.Channel.{Message}
use docflow_core.Ws.Room.{
  Room, Event, new_room, has, drop, fanout, and_then, step, on_unregister, on_broadcast,
  leave_if_empty, null_awareness,
}
use docflow_core.Ws.Room.Sound.{Sound, Fine, Kept, drop-Kept}
use docflow_core.Ws.Room.Safety.{fanout-Kept}

-- A client registers once, with a channel of its own.
abbrev pub IsNew : Event → List ℕ → Type 0
IsNew (Event.register c) used = has c used ≡ false
IsNew _ used = Unit

abbrev pub connected : Event → List ℕ → List ℕ
connected (Event.register c) used = c ∷ used
connected _ used = used

pub data Reached : List ℕ → Room → Type 0 where
  start : Reached [] new_room
  next :
      {used : List ℕ} {r t : Room} (e : Event)
      → Reached used r
      → IsNew e used
      → step e r ≡ some t
      → Reached (connected e used) t

-- The room is sound, its clients have registered, and who has not has an open channel.
pub record Inv (used : List ℕ) (r : Room) : Type 0 where
  pub sound : Sound r
  pub registered : (x : ℕ) → has x r.clients ≡ true → has x used ≡ true
  pub waiting : (x : ℕ) → has x used ≡ false → (r.channels x).closed ≡ false

pub Fine-map :
    (P Q : Room → Type 0) (o : Option Room) → Fine P o → ((t : Room) → P t → Q t) → Fine Q o
Fine-map P Q none h f = h
Fine-map P Q (some t) h f = f t h

pub Fine-then :
    (P Q : Room → Type 0) (o : Option Room) (k : Room → Option Room)
    → Fine P o
    → ((t : Room) → P t → Fine Q (k t))
    → Fine Q (and_then o k)
Fine-then P Q none k h f = absurd h
Fine-then P Q (some t) k h f = f t h

pub Fine-if :
    (P : Room → Type 0) (b : Bool) (r : Room) (o : Option Room)
    → P r
    → Fine P o
    → Fine P (if b then some r else o)
Fine-if P true r o h k = h
Fine-if P false r o h k = k

module _ (used : List ℕ) (r : Room) (inv : Inv used r) where
  -- What a loop over clients that have registered keeps
  pub Inv-Kept :
      (cs : List ℕ) (t : Room)
      → ((x : ℕ) → has x used ≡ false → has x cs ≡ false)
      → Kept cs r t
      → Inv used t
  Inv-Kept cs t outside k = record {
    sound = k.sound;
    registered = λ x h. inv.registered x (k.fewer x h);
    waiting = λ x h. ap (λ ch. ch.closed) (k.others x (outside x h)) ∙ inv.waiting x h;
  }

  pub absent : (x : ℕ) → has x used ≡ false → has x r.clients ≡ false
  absent x h = ground (arith, inv.registered x)

  pub fanout-Inv :
      (sender : Option ℕ) (m : Message) (drop_on_full : Bool)
      → Fine (Inv used) (fanout sender m drop_on_full r.clients r)
  fanout-Inv sender m drop_on_full =
      Fine-map _ (Inv used) _
        (fanout-Kept sender m drop_on_full r.clients r inv.sound inv.sound.distinct
          inv.sound.opened)
        (λ t k. Inv-Kept r.clients t absent k)

  pub drop-Inv : (c : ℕ) → has c r.clients ≡ true → Fine (Inv used) (drop c r)
  drop-Inv c here =
      Fine-map _ (Inv used) _ (drop-Kept r inv.sound c (inv.sound.opened c here))
        (λ t k. Inv-Kept (c ∷ []) t (λ x h. ground (arith, inv.registered c here)) k)

pub leave-Inv : (used : List ℕ) (r : Room) → Inv used r → Inv used (leave_if_empty r)
leave-Inv used r inv = left r.clients refl
  where
    left :
        (cs : List ℕ)
        → r.clients ≡ cs
        → Inv used (elim cs [ [] ↦ record r { done = true } | c ∷ ds ↦ r ])
    left [] e = record {
      sound = record { distinct = inv.sound.distinct; opened = inv.sound.opened };
      registered = inv.registered;
      waiting = inv.waiting;
    }
    left (c ∷ ds) e = inv

pub unregister-Inv :
    (used : List ℕ) (r : Room) (c : ℕ) → Inv used r → Fine (Inv used) (on_unregister c r)
unfolding on_unregister
unregister-Inv used r c inv = gone (has c r.clients) refl
  where
    gone :
        (b : Bool)
        → has c r.clients ≡ b
        → Fine (Inv used) (
            if b
            then and_then (drop c r) (λ t.
              and_then
                (fanout none null_awareness false t.clients t)
                (λ u. some (leave_if_empty u)))
            else some r)
    gone false e = inv
    gone true e = Fine-then (Inv used) (Inv used) _ _ (drop-Inv used r inv c e) λ t k.
        Fine-then (Inv used) (Inv used) _ _ (fanout-Inv used t k none null_awareness false)
          (λ u l. leave-Inv used u l)

pub broadcast-Inv :
    (used : List ℕ) (r : Room) (c : ℕ) (m : Message) (persisted : Bool)
    → Inv used r
    → Fine (Inv used) (on_broadcast c m persisted r)
unfolding on_broadcast
broadcast-Inv used r c m false inv = inv
broadcast-Inv used r c m true inv =
    fanout-Inv used (record r { stored = m ∷ r.stored })
      (record {
        sound = record { distinct = inv.sound.distinct; opened = inv.sound.opened };
        registered = inv.registered;
        waiting = inv.waiting;
      })
      (some c) m true
