-- ===== src/Exec/Ensures.antt =====
-- A program logic for the methods: `Ensures P s es m` says that m, run on the database s with the
-- events es, ends in P.
use docflow_core.Prelude.{
  Option, ◌+◌, ◌≡◌, refl, sym, ap, ◌∙◌, Bool, true, false, List, if◌then◌else◌,
}
use mathlib.Core.Path.{subst, subst₂}
use docflow_core.Model.{Error}
use docflow_core.Model.Error.{driver}
use docflow_core.Model.Store.{Store, World, BoardEvent, Result, ok, err}
use docflow_core.Exec.{
  Exec, pure, raise, and_then, ◌>>=◌, later, execute, translate, missing_as, round_trip, settle,
  transaction, attempt, no_error,
}
use docflow_core.Exec.Reads.{Reads, Reads-query}

-- What may hold when a method is done: of its result, the database and the events.
abbrev pub Post : Type 0 → Type 1
Post A = Result A → Store → List BoardEvent → Type 0

pub record Ensures {A : Type 0} (P : Post A) (s : Store) (es : List BoardEvent) (m : Exec A)
    : Type 0 where
  pub at : (w : World) → w.db ≡ s → w.events ≡ es → P (m w).0 (m w).1.db (m w).1.events

-- It fails and has changed nothing, or it returns and P holds.
abbrev pub Outcome :
    {A : Type 0} → Store → List BoardEvent → (A → Store → List BoardEvent → Type 0) → Post A
Outcome s es P (ok a) s' es' = P a s' es'
Outcome s es P (err e) s' es' = (s' ≡ s) × (es' ≡ es)

-- A method that has returned is in the second case.
pub Outcome-ok :
    {A : Type 0} (s : Store) (es : List BoardEvent) (P : A → Store → List BoardEvent → Type 0)
    (r : Result A) (t : Store) (u : List BoardEvent) (a : A)
    → Outcome s es P r t u
    → r ≡ ok a
    → P a t u
Outcome-ok s es P (ok b) t u a h e = subst (λ x. P x t u) (cc) h
Outcome-ok s es P (err x) t u a h e = absurd (cc)

module _ {A B : Type 0} where
  pub Ensures-Reads :
      (P : Post B) (s : Store) (es : List BoardEvent) (F : Store → A → Type 0) (m : Exec A)
      (k : A → Exec B)
      → Reads F m
      → ((e : Error) → P (err e) s es)
      → ((a : A) → F s a → Ensures P s es (k a))
      → Ensures P s es (m >>= k)
  Ensures-Reads P s es F m k h fails next = record {
    at = λ w p q.
        go (m w).0 (m w).1 (h.same_db w ∙ p) (h.same_events w ∙ q)
          (λ a e. subst (λ t. F t a) p (h.reads w a e));
  }
    where
      go :
          (r : Result A) (v : World)
          → v.db ≡ s
          → v.events ≡ es
          → ((a : A) → r ≡ ok a → F s a)
          → P (and_then (r, v) k).0 (and_then (r, v) k).1.db (and_then (r, v) k).1.events
      go (ok a) v p q known = (next a (known a refl)).at v p q
      go (err e) v p q known = subst₂ (P (err e)) (sym p) (sym q) (fails e)

  pub Ensures-execute_bind :
      (P : Post B) (s : Store) (es : List BoardEvent) (f : Store → Result A × Store)
      (k : A → Exec B)
      → P (err driver) s es
      → ((e : Error) → (f s).0 ≡ err e → P (err e) (f s).1 es)
      → ((a : A) → (f s).0 ≡ ok a → Ensures P (f s).1 es (k a))
      → Ensures P s es (execute f >>= k)
  unfolding execute
  Ensures-execute_bind P s es f k lost fails next = record {
    at = λ w p q.
        go (w.outage w.tick) (f w.db).0 (f w.db).1 w p q (ap (λ t. (f t).0) (sym p))
          (ap (λ t. (f t).1) (sym p));
  }
    where
      after : Bool → Result A → Store → World → Result B × World
      after b r s' w =
          and_then
            (if b then (err driver, later w) else (r, record w { db = s'; tick = w.tick + 1 })) k

      go :
          (b : Bool) (r : Result A) (s' : Store) (w : World)
          → w.db ≡ s
          → w.events ≡ es
          → (f s).0 ≡ r
          → (f s).1 ≡ s'
          → P (after b r s' w).0 (after b r s' w).1.db (after b r s' w).1.events
      go true r s' w p q e d = subst₂ (P (err driver)) (sym p) (sym q) lost
      go false (ok a) s' w p q e d =
          (next a e).at (record w { db = s'; tick = w.tick + 1 }) (sym d) q
      go false (err x) s' w p q e d = subst₂ (P (err x)) d (sym q) (fails x e)

  pub Ensures-bind :
      (P : Post B) (s : Store) (es : List BoardEvent) (Q : Post A) (m : Exec A) (k : A → Exec B)
      → Ensures Q s es m
      → ((e : Error) (s' : Store) (es' : List BoardEvent) → Q (err e) s' es' → P (err e) s' es')
      → ((a : A) (s' : Store) (es' : List BoardEvent) → Q (ok a) s' es' → Ensures P s' es' (k a))
      → Ensures P s es (m >>= k)
  Ensures-bind P s es Q m k h fails next = record { at = λ w p q. go (m w).0 (m w).1 (h.at w p q) }
    where
      go :
          (r : Result A) (v : World)
          → Q r v.db v.events
          → P (and_then (r, v) k).0 (and_then (r, v) k).1.db (and_then (r, v) k).1.events
      go (ok a) v h = (next a v.db v.events h).at v refl refl
      go (err e) v h = fails e v.db v.events h

module _ {A : Type 0} (P : Post A) (s : Store) (es : List BoardEvent) where
  pub Ensures-pure : (a : A) → P (ok a) s es → Ensures P s es (pure a)
  Ensures-pure a h = record { at = λ w p q. subst₂ (P (ok a)) (sym p) (sym q) h }

  pub Ensures-raise : (e : Error) → P (err e) s es → Ensures P s es (raise e)
  Ensures-raise e h = record { at = λ w p q. subst₂ (P (err e)) (sym p) (sym q) h }

  pub Ensures-if :
      (b : Bool) (m n : Exec A)
      → (b ≡ true → Ensures P s es m)
      → (b ≡ false → Ensures P s es n)
      → Ensures P s es (if b then m else n)
  Ensures-if true m n h k = h refl
  Ensures-if false m n h k = k refl

  pub Ensures-execute :
      (f : Store → Result A × Store)
      → P (err driver) s es
      → P (f s).0 (f s).1 es
      → Ensures P s es (execute f)
  unfolding execute
  Ensures-execute f lost h = record { at = λ w p q. go (w.outage w.tick) w p q }
    where
      after : Bool → World → Result A × World
      after b w =
          if b
          then (err driver, later w)
          else ((f w.db).0, record w { db = (f w.db).1; tick = w.tick + 1 })

      go :
          (b : Bool) (w : World)
          → w.db ≡ s
          → w.events ≡ es
          → P (after b w).0 (after b w).1.db (after b w).1.events
      go true w p q = subst₂ (P (err driver)) (sym p) (sym q) lost
      go false w p q = subst₂ (λ t u. P (f t).0 (f t).1 u) (sym p) (sym q) h

  pub Ensures-weaken :
      (Q : Post A) (m : Exec A)
      → ((r : Result A) (s' : Store) (es' : List BoardEvent) → Q r s' es' → P r s' es')
      → Ensures Q s es m
      → Ensures P s es m
  Ensures-weaken Q m f h = record { at = λ w p q. f (m w).0 (m w).1.db (m w).1.events (h.at w p q) }

  pub Ensures-missing_as :
      (e : Error) (m : Exec A)
      → Ensures (λ r. P (translate e r)) s es m
      → Ensures P s es (missing_as e m)
  unfolding missing_as
  Ensures-missing_as e m h = record { at = h.at }

  pub Ensures-attempt :
      {B : Type 0} (m : Exec B) (Q : Post (Option B))
      → Ensures (λ r t u. Q (ok (no_error r)) t u) s es m
      → Ensures Q s es (attempt m)
  unfolding attempt
  Ensures-attempt m Q h = record { at = h.at }

-- No error of a method that fails atomically becomes a result by being translated.
translate-Outcome :
    {A : Type 0} (s : Store) (es : List BoardEvent) (P : A → Store → List BoardEvent → Type 0)
    (e : Error) (r : Result A) (t : Store) (es' : List BoardEvent)
    → Outcome s es P r t es'
    → Outcome s es P (translate e r) t es'
translate-Outcome s es P e (ok a) t es' h = h
translate-Outcome s es P e (err x) t es' h = outcome x
  where
    outcome : (x : Error) → Outcome s es P (translate e (err x)) t es'
    outcome Error.record_not_found = h
    outcome _ = h

module _ {A : Type 0} (P : A → Store → List BoardEvent → Type 0) (s : Store)
    (es : List BoardEvent) where
  pub Outcome-missing_as :
      (e : Error) (m : Exec A)
      → Ensures (Outcome s es P) s es m
      → Ensures (Outcome s es P) s es (missing_as e m)
  Outcome-missing_as e m h =
      Ensures-missing_as (Outcome s es P) s es e m
        (Ensures-weaken _ s es (Outcome s es P) m (translate-Outcome s es P e) h)

  pub Outcome-affected :
      (f : Store → Result A × Store)
      → Outcome s es P (f s).0 (f s).1 es
      → Ensures (Outcome s es P) s es (execute f)
  Outcome-affected f h = Ensures-execute (Outcome s es P) s es f (refl, refl) h

module _ {A B : Type 0} (s : Store) (es : List BoardEvent) where
  outcome_map :
      (P : A → Store → List BoardEvent → Type 0) (Q : B → Store → List BoardEvent → Type 0)
      → ((a : A) (t : Store) (u : List BoardEvent) → P a t u → (b : B) → Q b t u)
      → (m : Exec A) (b : A → B) → Ensures (Outcome s es P) s es m
      → Ensures (Outcome s es Q) s es (m >>= λ a. pure (b a))
  outcome_map P Q f m b h =
      Ensures-bind (Outcome s es Q) s es (Outcome s es P) m (λ a. pure (b a)) h (λ e t u q. q)
        (λ a t u q. Ensures-pure (Outcome s es Q) t u (b a) (f a t u q (b a)))

  -- The result of a method is replaced by another.
  pub Outcome-map :
      (P : Store → List BoardEvent → Type 0) (m : Exec A) (b : A → B)
      → Ensures (Outcome s es (λ _. P)) s es m
      → Ensures (Outcome s es (λ _. P)) s es (m >>= λ a. pure (b a))
  Outcome-map P = outcome_map (λ _. P) (λ _. P) (λ a t u q _. q)

module _ {A : Type 0} (s : Store) (es : List BoardEvent) where
  weaken_outcome :
      (P Q : A → Store → List BoardEvent → Type 0)
      → ((a : A) (t : Store) (u : List BoardEvent) → P a t u → Q a t u)
      → (r : Result A) (t : Store) (u : List BoardEvent) → Outcome s es P r t u
      → Outcome s es Q r t u
  weaken_outcome P Q f (ok a) t u h = f a t u h
  weaken_outcome P Q f (err e) t u h = h

  pub Outcome-weaken :
      (P Q : A → Store → List BoardEvent → Type 0) (m : Exec A)
      → ((a : A) (t : Store) (u : List BoardEvent) → P a t u → Q a t u)
      → Ensures (Outcome s es P) s es m
      → Ensures (Outcome s es Q) s es m
  Outcome-weaken P Q m f h =
      Ensures-weaken (Outcome s es Q) s es (Outcome s es P) m (weaken_outcome P Q f) h

-- What the body of a transaction must do, so that the transaction ends in P.
abbrev pub Body : {A : Type 0} → List BoardEvent → (A → Store → List BoardEvent → Type 0) → Post A
Body es P (ok a) s' es' = P a s' es' × (es' ≡ es)
Body es P (err e) s' es' = es' ≡ es

module _ {A : Type 0} (P : A → Store → List BoardEvent → Type 0) where
  Inner : List BoardEvent → Post A
  Inner es (ok a) s' es' = P a s' es'
  Inner es (err e) s' es' = es' ≡ es

  commit_Inner :
      (es : List BoardEvent) (a : A) (s' : Store) (es' : List BoardEvent)
      → P a s' es'
      → es' ≡ es
      → Ensures (Inner es) s' es' (round_trip >>= λ _. pure a)
  unfolding round_trip Inner
  commit_Inner es a s' es' h q =
      Ensures-Reads (Inner es) s' es' _ round_trip (λ _. pure a) (Reads-query (λ _. ok tt)) (λ e. q)
        (λ _ _. Ensures-pure (Inner es) s' es' a h)

  body_Inner :
      (s : Store) (es : List BoardEvent) (body : Exec A)
      → Ensures (Body es P) s es body
      → Ensures (Inner es) s es (round_trip >>= λ _. body >>= λ a. round_trip >>= λ _. pure a)
  unfolding round_trip Inner
  body_Inner s es body h =
      Ensures-Reads (Inner es) s es _ round_trip _ (Reads-query (λ _. ok tt)) (λ e. refl)
        (λ _ _.
          Ensures-bind (Inner es) s es (Body es P) body _ h (λ e s' es' q. q)
            (λ a s' es' q. commit_Inner es a s' es' q.0 q.1))

  -- A transaction takes place as a whole or not at all, whichever of its statements fails.
  pub Ensures-transaction :
      (s : Store) (es : List BoardEvent) (body : Exec A)
      → Ensures (Body es P) s es body
      → Ensures (Outcome s es P) s es (transaction body)
  unfolding transaction Inner
  Ensures-transaction s es body h = record {
    at = λ w p q. go w p _ _ ((body_Inner s es body h).at w p q);
  }
    where
      go :
          (w : World)
          → w.db ≡ s
          → (r : Result A) (v : World) → Inner es r v.db v.events
          → Outcome s es P
              (settle w.db (r, v)).0
              (settle w.db (r, v)).1.db
              (settle w.db (r, v)).1.events
      go w p (ok a) v h = h
      go w p (err e) v h = (p, h)

-- The method has made t of the database, with a result in F, and has sent no event.
abbrev pub Wrote :
    {A : Type 0} → Store → (A → Type 0) → List BoardEvent → A → Store → List BoardEvent → Type 0
Wrote t F es a t' es' = F a × (t' ≡ t) × (es' ≡ es)
