-- ===== src/Exec/Steps.antt =====
-- The steps of a method that fails and changes nothing, or returns in P.
use docflow_core.Prelude.{◌≡◌, refl, sym, Bool, true, false, List, if◌then◌else◌}
use docflow_core.Model.Store.{Store, BoardEvent}
use docflow_core.Exec.{Exec, ◌>>=◌, raise}
use docflow_core.Model.{Error}
use mathlib.Core.Path.{subst₂}
use docflow_core.Exec.Reads.{Reads}
use docflow_core.Exec.Ensures.{
  Outcome, Ensures, Ensures-Reads, Ensures-raise, Ensures-if, Outcome-weaken, Wrote,
}

module _ {B : Type 0} (P : B → Store → List BoardEvent → Type 0) (s : Store)
    (es : List BoardEvent) where
  -- Run on the database s, m returns in P or fails and changes nothing.
  abbrev pub Yields : Exec B → Type 0
  Yields = Ensures (Outcome s es P) s es

  -- A read whose failure ends the method
  pub after_read :
      {A : Type 0} (F : Store → A → Type 0) (m : Exec A) (k : A → Exec B)
      → Reads F m
      → ((a : A) → F s a → Yields (k a))
      → Yields (m >>= k)
  after_read F m k h next = Ensures-Reads _ s es F m k h (λ e. (refl, refl)) next

  -- A test that ends the method with an error
  pub refuses :
      (b : Bool) (e : Error) (m : Exec B)
      → (b ≡ false → Yields m)
      → Yields (if b then raise e else m)
  refuses b e m h = Ensures-if _ s es b _ m (λ _. Ensures-raise _ s es e (refl, refl)) h

  -- A test without which the method ends with an error
  pub demands :
      (b : Bool) (e : Error) (m : Exec B)
      → (b ≡ true → Yields m)
      → Yields (if b then m else raise e)
  demands b e m h = Ensures-if _ s es b m _ h (λ _. Ensures-raise _ s es e (refl, refl))

  -- The write that ends the method
  pub writes :
      (t : Store) (F : B → Type 0) (m : Exec B)
      → ((b : B) → F b → P b t es)
      → Ensures (Outcome s es (Wrote t F es)) s es m
      → Yields m
  writes t F m g h =
      Outcome-weaken s es (Wrote t F es) P m (λ b u v q. subst₂ (P b) (sym q.1) (sym q.2) (g b q.0))
        h
