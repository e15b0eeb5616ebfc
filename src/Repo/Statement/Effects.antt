-- ===== src/Repo/Statement/Effects.antt =====
-- What a statement that writes ensures: its rows are written, or nothing is.
use docflow_core.Prelude.{refl, Bool, true, false, Option, none, some, List}
use docflow_core.Model.Store.{Store, BoardEvent}
use docflow_core.Exec.Ensures.{Outcome, Wrote}
use docflow_core.Repo.Statement.{affected, returning}

module _ (s : Store) (es : List BoardEvent) where
  pub affected-Wrote :
      (found_it : Bool) (t : Store)
      → Outcome s es
          (Wrote t (λ _. Unit {0}) es)
          (affected found_it s t).0
          (affected found_it s t).1
          es
  affected-Wrote true t = (tt, refl, refl)
  affected-Wrote false t = (refl, refl)

  pub returning-Wrote :
      {A : Type 0} (o : Option A) (f : A → A) (t : Store)
      → Outcome s es (Wrote t (λ _. Unit {0}) es) (returning o f s t).0 (returning o f s t).1 es
  returning-Wrote none f t = (refl, refl)
  returning-Wrote (some a) f t = (tt, refl, refl)
