-- ===== src/Exec/Reads.antt =====
-- A program logic for the methods that change nothing: what they return satisfies F.
use docflow_core.Prelude.{
  ◌≡◌, refl, sym, ◌∙◌, Bool, true, false, Option, none, some, if◌then◌else◌, arith,
}
use mathlib.Core.Path.{subst}
use docflow_core.Model.{Error}
use docflow_core.Model.Error.{record_not_found}
use docflow_core.Model.Store.{Store, World, Result, ok, err}
use docflow_core.Exec.{
  Exec, pure, raise, and_then, ◌>>=◌, query, translate, missing_as, absent, optional,
  generate_token, ask, time_now,
}

pub record Reads {A : Type 0} (F : Store → A → Type 0) (m : Exec A) : Type 0 where
  pub same_db : (w : World) → (m w).1.db ≡ w.db
  pub same_events : (w : World) → (m w).1.events ≡ w.events
  pub reads : (w : World) (a : A) → (m w).0 ≡ ok a → F w.db a

module _ {A : Type 0} where
  pub Reads-pure : (F : Store → A → Type 0) (a : A) → ((s : Store) → F s a) → Reads F (pure a)
  Reads-pure F a h = record {
    same_db = λ w. refl;
    same_events = λ w. refl;
    reads = λ w b e. subst (F w.db) (cc) (h w.db);
  }

  pub Reads-raise : (F : Store → A → Type 0) (e : Error) → Reads F (raise e)
  Reads-raise F e = record { same_db = λ w. refl; same_events = λ w. refl; reads = λ w b h. cc }

  pub Reads-weaken :
      (F G : Store → A → Type 0) (m : Exec A)
      → ((s : Store) (a : A) → F s a → G s a)
      → Reads F m
      → Reads G m
  Reads-weaken F G m f h = record {
    same_db = h.same_db;
    same_events = h.same_events;
    reads = λ w a e. f w.db a (h.reads w a e);
  }

  pub Reads-query : (f : Store → Result A) → Reads (λ s a. f s ≡ ok a) (query f)
  unfolding query
  Reads-query f = record {
    same_db = λ w. ground arith;
    same_events = λ w. ground arith;
    reads = λ w a. ground arith;
  }

  translate_ok : (e : Error) (r : Result A) (a : A) → translate e r ≡ ok a → r ≡ ok a
  translate_ok e (ok b) a h = h
  translate_ok e (err x) a h = ground arith

  pub Reads-missing_as :
      (F : Store → A → Type 0) (e : Error) (m : Exec A) → Reads F m → Reads F (missing_as e m)
  unfolding missing_as
  Reads-missing_as F e m h = record {
    same_db = h.same_db;
    same_events = h.same_events;
    reads = λ w a p. h.reads w a (translate_ok e (m w).0 a p);
  }

  absent-some : (r : Result A) (a : A) → absent r ≡ ok (some a) → r ≡ ok a
  absent-some r a h = ground arith

  absent-none : (r : Result A) → absent r ≡ ok none → r ≡ err record_not_found
  absent-none r h = ground arith

  -- What an optional row tells: that it is there, or that the statement found none.
  abbrev pub Optional : (Store → Result A) → Store → Option A → Type 0
  Optional f s none = f s ≡ err record_not_found
  Optional f s (some a) = f s ≡ ok a

  pub Reads-optional : (f : Store → Result A) → Reads (Optional f) (optional (query f))
  unfolding optional query
  Reads-optional f = record {
    same_db = λ w. ground arith;
    same_events = λ w. ground arith;
    reads = λ w o p. read w o p;
  }
    where
      read : (w : World) (o : Option A) → (optional (query f) w).0 ≡ ok o → Optional f w.db o
      read w none p = ground arith
      read w (some a) p = ground arith

  pub Reads-if :
      (F : Store → A → Type 0) (b : Bool) (m n : Exec A)
      → (b ≡ true → Reads F m)
      → (b ≡ false → Reads F n)
      → Reads F (if b then m else n)
  Reads-if F true m n h k = h refl
  Reads-if F false m n h k = k refl

module _ {A B : Type 0} where
  pub Reads-bind :
      (F : Store → A → Type 0) (G : Store → B → Type 0) (m : Exec A) (k : A → Exec B)
      → Reads F m
      → ((a : A) → Reads (λ s b. F s a → G s b) (k a))
      → Reads G (m >>= k)
  Reads-bind F G m k h next = record {
    same_db = λ w. db_of w (m w).0 (m w).1 ∙ h.same_db w;
    same_events = λ w. events_of w (m w).0 (m w).1 ∙ h.same_events w;
    reads = λ w b e. result_of w (m w).0 (m w).1 b (h.same_db w) (h.reads w) e;
  }
    where
      db_of : (w : World) (r : Result A) (v : World) → (and_then (r, v) k).1.db ≡ v.db
      db_of w (ok a) v = (next a).same_db v
      db_of w (err e) v = refl

      events_of : (w : World) (r : Result A) (v : World) → (and_then (r, v) k).1.events ≡ v.events
      events_of w (ok a) v = (next a).same_events v
      events_of w (err e) v = refl

      result_of :
          (w : World) (r : Result A) (v : World) (b : B)
          → v.db ≡ w.db
          → ((a : A) → r ≡ ok a → F w.db a)
          → (and_then (r, v) k).0 ≡ ok b
          → G w.db b
      result_of w (ok a) v b same known e =
          subst (λ s. G s b) same
            ((next a).reads v b e (subst (λ s. F s a) (sym same) (known a refl)))
      result_of w (err x) v b same known e = cc

pub generate_token-Reads : Reads (λ _ _. Unit {0}) generate_token
unfolding generate_token
generate_token-Reads = record {
  same_db = λ w. ground arith;
  same_events = λ w. ground arith;
  reads = λ w a e. tt;
}

pub ask-Reads : {A : Type 0} (f : World → Result A) → Reads (λ _ _. Unit {0}) (ask f)
unfolding ask
ask-Reads f = record { same_db = λ w. refl; same_events = λ w. refl; reads = λ w a e. tt }

pub time_now-Reads : Reads (λ s now. now ≡ s.now) time_now
unfolding time_now ask
time_now-Reads = record { same_db = λ w. refl; same_events = λ w. refl; reads = λ w a e. cc }
