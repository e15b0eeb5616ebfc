-- ===== src/Service/Content/Serving.antt =====
-- The steps that the methods of CardService and ColumnService share: what is read before the write,
-- the write, what is read after it, and the broadcast.
use docflow_core.Prelude.{ℕ, ◌≡◌, refl, sym, ap, ◌++◌, List, [], ◌∷◌}
use mathlib.Core.Path.{subst₂, subst}
use docflow_core.Model.Store.{Store, BoardEvent, Payload, ok, err}
use docflow_core.Service.Boards.Request.{discard}
use docflow_core.Exec.{pure, Exec, ◌>>=◌, broadcast}
use docflow_core.Exec.Reads.{Reads}
use docflow_core.Exec.Ensures.{
  Ensures-pure, Wrote, Post, Outcome, Ensures, Ensures-Reads, Ensures-bind,
}

-- The method returns in P, or fails, leaves L, and has sent nothing.
abbrev pub ToldOrLeft :
    {A : Type 0} → (Store → List BoardEvent → Type 0) → (Store → Type 0) → List BoardEvent → Post A
ToldOrLeft P L es (ok a) t es' = P t es'
ToldOrLeft P L es (err e) t es' = L t × (es' ≡ es)

module _ (P : Store → List BoardEvent → Type 0) (L : Store → Type 0) (es : List BoardEvent) where
  pub step_read :
      {A B : Type 0} (s : Store) (F : Store → A → Type 0) (m : Exec A) (k : A → Exec B)
      → Reads F m
      → L s
      → ((a : A) → F s a → Ensures (ToldOrLeft P L es) s es (k a))
      → Ensures (ToldOrLeft P L es) s es (m >>= k)
  step_read s F m k h l next = Ensures-Reads _ s es F m k h (λ e. (l, refl)) next

  pub step_write :
      {A B : Type 0} (s t : Store) (F : A → Type 0) (m : Exec A) (k : A → Exec B)
      → Ensures (Outcome s es (Wrote t F es)) s es m
      → L s
      → ((a : A) → F a → Ensures (ToldOrLeft P L es) t es (k a))
      → Ensures (ToldOrLeft P L es) s es (m >>= k)
  step_write s t F m k h l next =
      Ensures-bind (ToldOrLeft P L es) s es (Outcome s es (Wrote t F es)) m k h
        (λ e u v q. (subst L (sym q.0) l, q.1))
        (λ a u v q.
          subst₂ (λ x y. Ensures (ToldOrLeft P L es) x y (k a)) (sym q.1) (sym q.2) (next a q.0))

  -- A method whose result is left out
  pub step_discard :
      {A : Type 0} (s : Store) (m : Exec A)
      → Ensures (ToldOrLeft P L es) s es m
      → Ensures (ToldOrLeft P L es) s es (discard m)
  step_discard s m h =
      Ensures-bind (ToldOrLeft P L es) s es (ToldOrLeft P L es) m _ h (λ e u v q. q)
        (λ a u v q. Ensures-pure (ToldOrLeft P L es) u v tt q)

module _ {B : Type 0} (P : Post B) (t : Store) (es : List BoardEvent) where
  pub step_tell :
      (board : ℕ) (p : Payload) (k : Unit {0} → Exec B)
      → Ensures P t (es ++ (record { board_id = board; payload = p } ∷ [])) (k tt)
      → Ensures P t es (broadcast board p >>= k)
  unfolding broadcast
  step_tell board p k h = record {
    at = λ w e q.
        h.at (record w { events = w.events ++ (record { board_id = board; payload = p } ∷ []) }) e
          (ap (λ x. x ++ (record { board_id = board; payload = p } ∷ [])) q);
  }

  -- The broadcast that comes last, with the result of the method
  pub tell_then :
      (board : ℕ) (p : Payload) (b : B)
      → P (ok b) t (es ++ (record { board_id = board; payload = p } ∷ []))
      → Ensures P t es (broadcast board p >>= λ _. pure b)
  tell_then board p b h = step_tell board p (λ _. pure b) (Ensures-pure P t _ b h)

module _ (P : Post (Unit {0})) (t : Store) (es : List BoardEvent) where
  pub tell_last :
      (board : ℕ) (p : Payload)
      → P (ok tt) t (es ++ (record { board_id = board; payload = p } ∷ []))
      → Ensures P t es (broadcast board p)
  unfolding broadcast
  tell_last board p h = record {
    at = λ w e q.
        subst₂ (P (ok tt)) (sym e)
          (ap (λ x. x ++ (record { board_id = board; payload = p } ∷ [])) (sym q)) h;
  }
