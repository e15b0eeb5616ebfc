-- ===== src/Ws/Room/Safety.antt =====
-- fanout in internal/ws/room.go, on a room whose clients have open channels.
use docflow_core.Prelude.{
  ◌++◌, ℕ, ◌≡◌, refl, ap, ◌∙◌, Bool, true, false, Option, none, some, List, [], ◌∷◌, arith,
  if◌then◌else◌, ltb, length,
}
use docflow_core.Ws.Channel.{Message, Channel, Attempt, try_send, capacity}
use docflow_core.Ws.Room.{Room, has, with_channel, drop, is_sender, offer, fanout, and_then}
use docflow_core.Ws.Room.Sound.{Distinct, Sound, Fine, Kept, sent-Kept, drop-Kept}

abbrev pub Works : Channel → Attempt → Type 0
Works ch Attempt.panic = ⊥
Works ch Attempt.full = Unit
Works ch (Attempt.sent ch') = ch'.closed ≡ ch.closed

pub try_send-Works : (m : Message) (ch : Channel) → ch.closed ≡ false → Works ch (try_send m ch)
unfolding try_send
try_send-Works m ch up = tried ch.closed up
  where
    extended : Channel
    extended = record ch { buffer = ch.buffer ++ (m ∷ []) }

    room : (b : Bool) → Works ch (if b then Attempt.sent extended else Attempt.full)
    room true = refl
    room false = tt

    tried :
        (b : Bool)
        → b ≡ false
        → Works ch (
            if b
            then Attempt.panic
            else (if ltb (length ch.buffer) capacity then Attempt.sent extended else Attempt.full))
    tried true e = absurd (cc)
    tried false e = room (ltb (length ch.buffer) capacity)

same-Kept : (r : Room) (c : ℕ) → Sound r → Kept (c ∷ []) r r
same-Kept r c sound = record {
  sound = sound;
  fewer = λ x h. h;
  others = λ x h. refl;
  same_done = refl;
}

module _ (sender : Option ℕ) (m : Message) (drop_on_full : Bool) where
  offer-Kept :
      (c : ℕ) (r : Room)
      → Sound r
      → (r.channels c).closed ≡ false
      → Fine (Kept (c ∷ []) r) (offer sender m drop_on_full c r)
  unfolding offer
  offer-Kept c r sound up =
      turn (is_sender sender c) (try_send m (r.channels c)) (try_send-Works m (r.channels c) up)
    where
      crowded : (b : Bool) → Fine (Kept (c ∷ []) r) (if b then drop c r else some r)
      crowded true = drop-Kept r sound c up
      crowded false = same-Kept r c sound

      turn :
          (b : Bool) (a : Attempt)
          → Works (r.channels c) a
          → Fine (Kept (c ∷ []) r) (
              if b then some r else elim a [
                | Attempt.panic ↦ none
                | Attempt.sent ch ↦ some (with_channel c ch r)
                | Attempt.full ↦ if drop_on_full then drop c r else some r
              ])
      turn true a h = same-Kept r c sound
      turn false Attempt.panic h = h
      turn false Attempt.full h = crowded drop_on_full
      turn false (Attempt.sent ch) h = sent-Kept r sound c ch (h ∙ up)

  Kept-then :
      (c : ℕ) (cs : List ℕ) (r t : Room)
      → Kept (c ∷ []) r t
      → (o : Option Room) → Fine (Kept cs t) o
      → Fine (Kept (c ∷ cs) r) o
  Kept-then c cs r t first none next = elim next [ ]
  Kept-then c cs r t first (some u) next = record {
    sound = next.sound;
    fewer = λ x h. first.fewer x (next.fewer x h);
    others = λ x h. next.others x (ground arith) ∙ first.others x (ground arith);
    same_done = next.same_done ∙ first.same_done;
  }

  -- The loop visits clients whose channels are open.
  pub fanout-Kept :
      (cs : List ℕ) (r : Room)
      → Sound r
      → Distinct cs
      → ((x : ℕ) → has x cs ≡ true → (r.channels x).closed ≡ false)
      → Fine (Kept cs r) (fanout sender m drop_on_full cs r)
  unfolding fanout
  fanout-Kept [] r sound h up = record {
    sound = sound;
    fewer = λ x h. h;
    others = λ x h. refl;
    same_done = refl;
  }
  fanout-Kept (c ∷ cs) r sound (fresh, h) up =
      go (offer sender m drop_on_full c r) (offer-Kept c r sound (up c (ground arith))) (λ t k.
        fanout-Kept cs t k.sound h
          (λ x e. ap (λ ch. ch.closed) (k.others x (ground arith)) ∙ up x (ground arith)))
    where
      go :
          (o : Option Room)
          → Fine (Kept (c ∷ []) r) o
          → ((t : Room) → Kept (c ∷ []) r t → Fine (Kept cs t) (fanout sender m drop_on_full cs t))
          → Fine (Kept (c ∷ cs) r) (and_then o (λ t. fanout sender m drop_on_full cs t))
      go none h next = h
      go (some t) k next = Kept-then c cs r t k _ (next t k)
