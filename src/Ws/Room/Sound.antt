-- ===== src/Ws/Room/Sound.antt =====
-- internal/ws/room.go: rooms whose clients are different and have open channels.
use mathlib.Core.Path.{subst}
use docflow_core.Prelude.{
  sym, ℕ, ◌≡◌, refl, Bool, true, false, ◌==◌, Option, none, some, List, [], ◌∷◌, arith,
  if◌then◌else◌, delete_rows,
}
use docflow_core.Ws.Channel.{Channel, close}
use docflow_core.Ws.Room.{Room, has, with_channel, drop}

abbrev pub Distinct : List ℕ → Type 0
Distinct [] = Unit
Distinct (c ∷ cs) = (has c cs ≡ false) × Distinct cs

pub record Sound (r : Room) : Type 0 where
  pub distinct : Distinct r.clients
  pub opened : (c : ℕ) → has c r.clients ≡ true → (r.channels c).closed ≡ false

-- It does not panic, and ends in P.
abbrev pub Fine : (Room → Type 0) → Option Room → Type 0
Fine P none = ⊥
Fine P (some r) = P r

pub has-delete :
    (c d : ℕ) (cs : List ℕ)
    → has c (delete_rows (λ x. x == d) cs) ≡ (if c == d then false else has c cs)
has-delete c d [] = ground arith
has-delete c d (x ∷ cs) = ground (arith, has-delete c d cs)

kept_head :
    (b : Bool) (c : ℕ) (cs : List ℕ)
    → Distinct cs
    → has c cs ≡ false
    → Distinct (if b then cs else c ∷ cs)
kept_head true c cs h fresh = h
kept_head false c cs h fresh = (fresh, h)

delete-Distinct : (d : ℕ) (cs : List ℕ) → Distinct cs → Distinct (delete_rows (λ x. x == d) cs)
delete-Distinct d [] h = tt
delete-Distinct d (c ∷ cs) (fresh, h) =
    kept_head (c == d) c (delete_rows (λ x. x == d) cs) (delete-Distinct d cs h)
      (ground (arith, has-delete c d cs))

-- A room with the clients and the stored messages of r or fewer clients, where only the channels
-- of the clients listed differ
pub record Kept (cs : List ℕ) (r t : Room) : Type 0 where
  pub sound : Sound t
  pub fewer : (x : ℕ) → has x t.clients ≡ true → has x r.clients ≡ true
  pub others : (x : ℕ) → has x cs ≡ false → t.channels x ≡ r.channels x
  pub same_done : t.done ≡ r.done

module _ (r : Room) (sound : Sound r) (c : ℕ) where
  pub sent-Kept : (ch : Channel) → ch.closed ≡ false → Kept (c ∷ []) r (with_channel c ch r)
  sent-Kept ch up = record {
    sound = record { distinct = sound.distinct; opened = λ x h. ground (arith, sound.opened x h) };
    fewer = λ x h. h;
    others = λ x h. ground arith;
    same_done = refl;
  }

  without : Room
  without =
      with_channel c (record (r.channels c) { closed = true })
        (record r { clients = delete_rows (λ x. x == c) r.clients })

  drop_opened : (r.channels c).closed ≡ false → drop c r ≡ some without
  unfolding drop close without
  drop_opened up = ground (arith, up)

  pub drop-Kept : (r.channels c).closed ≡ false → Fine (Kept (c ∷ []) r) (drop c r)
  unfolding without
  drop-Kept up = subst (Fine (Kept (c ∷ []) r)) (sym (drop_opened up)) (record {
    sound = record {
      distinct = delete-Distinct c r.clients sound.distinct;
      opened = λ x h. ground (arith, has-delete x c r.clients, sound.opened x);
    };
    fewer = λ x h. ground (arith, has-delete x c r.clients);
    others = λ x h. ground arith;
    same_done = refl;
  })
