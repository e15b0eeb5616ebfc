-- ===== src/Exec/Answers.antt =====
-- Methods that read, while no call of the driver fails: `Answers s a m` says that m, run on the
-- database s, returns a and leaves the database as it is.
use docflow_core.Prelude.{Option, ap, ℕ, ◌≡◌, refl, ◌∙◌, Bool, true, false, if◌then◌else◌}
use mathlib.Core.Path.{subst}
use docflow_core.Model.{Error}
use docflow_core.Model.Error.{driver}
use docflow_core.Model.Store.{Store, World, Result, ok, err}
use docflow_core.Exec.{
  Exec, raise, later, pure, and_then, ◌>>=◌, query, translate, missing_as, absent, optional,
}

-- No call of the driver fails.
abbrev pub IsUp : World → Type 0
IsUp w = (n : ℕ) → w.outage n ≡ false

abbrev Stays : Store → World → Type 0
Stays s w = (w.db ≡ s) × IsUp w

module _ {A : Type 0} where
  -- It returns r, an error perhaps.
  pub record Replies (s : Store) (r : Result A) (m : Exec A) : Type 0 where
    pub at : (w : World) → w.db ≡ s → IsUp w → ((m w).0 ≡ r) × Stays s (m w).1

  abbrev pub Answers : Store → A → Exec A → Type 0
  Answers s a = Replies s (ok a)

  pub Replies-query : (s : Store) (f : Store → Result A) → Replies s (f s) (query f)
  unfolding query
  Replies-query s f = record { at = λ w p up. reply w p up (w.outage w.tick) (up w.tick) }
    where
      reply :
          (w : World)
          → w.db ≡ s
          → IsUp w
          → (b : Bool) → b ≡ false
          → let r : Result A × World = if b then (err driver, later w) else (f w.db, later w) in
            (r.0 ≡ f s) × Stays s r.1
      reply w p up true e = absurd (cc)
      reply w p up false e = (ap f p, (p, up))

  pub Answers-pure : (s : Store) (a : A) → Answers s a (pure a)
  Answers-pure s a = record { at = λ w p up. (refl, (p, up)) }

  pub Answers-query :
      (s : Store) (f : Store → Result A) (a : A) → f s ≡ ok a → Answers s a (query f)
  Answers-query s f a e = subst (λ r. Replies s r (query f)) e (Replies-query s f)

  pub Answers-missing_as :
      (s : Store) (e : Error) (m : Exec A) (a : A) → Answers s a m → Answers s a (missing_as e m)
  unfolding missing_as
  Answers-missing_as s e m a h = record {
    at = λ w p up. let (e0, stays) = h.at w p up in (ap (translate e) e0, stays);
  }

  pub Replies-raise : (s : Store) (e : Error) → Replies s (err e) (raise e)
  Replies-raise s e = record { at = λ w p up. (refl, (p, up)) }

  pub Answers-if :
      (s : Store) (a : A) (b : Bool) (m n : Exec A)
      → (b ≡ true → Answers s a m)
      → (b ≡ false → Answers s a n)
      → Answers s a (if b then m else n)
  Answers-if s a true m n h k = h refl
  Answers-if s a false m n h k = k refl

module _ {A : Type 0} where
  pub Answers-optional :
      (s : Store) (r : Result A) (o : Option A) (m : Exec A)
      → absent r ≡ ok o
      → Replies s r m
      → Replies s (ok o) (optional m)
  unfolding optional
  Answers-optional s r o m e h = record {
    at = λ w p up. let (e0, stays) = h.at w p up in (ap absent e0 ∙ e, stays);
  }

module _ {A B : Type 0} where
  pub Replies-bind :
      (s : Store) (a : A) (r : Result B) (m : Exec A) (k : A → Exec B)
      → Answers s a m
      → Replies s r (k a)
      → Replies s r (m >>= k)
  Replies-bind s a r m k h next = record {
    at = λ w p up. let (e, (q, up')) = h.at w p up in go (m w).0 (m w).1 e q up';
  }
    where
      ok-injective : (y x : A) → ok x ≡ ok y → y ≡ x
      ok-injective y x e = cc

      go :
          (q : Result A) (v : World)
          → q ≡ ok a
          → v.db ≡ s
          → IsUp v
          → ((and_then (q, v) k).0 ≡ r) × Stays s (and_then (q, v) k).1
      go (ok x) v e q up =
          subst (λ y. ((k y v).0 ≡ r) × Stays s (k y v).1) (ok-injective a x e) (next.at v q up)
      go (err x) v e q up = absurd (cc)

  pub Answers-bind :
      (s : Store) (a : A) (b : B) (m : Exec A) (k : A → Exec B)
      → Answers s a m
      → Answers s b (k a)
      → Answers s b (m >>= k)
  Answers-bind s a b = Replies-bind s a (ok b)

  -- An error ends the method.
  pub Replies-stop :
      (s : Store) (e : Error) (m : Exec A) (k : A → Exec B)
      → Replies s (err e) m
      → Replies s (err e) (m >>= k)
  Replies-stop s e m k h = record {
    at = λ w p up. let (f, (q, up')) = h.at w p up in stop (m w).0 (m w).1 f q up';
  }
    where
      stop :
          (q : Result A) (v : World)
          → q ≡ err e
          → v.db ≡ s
          → IsUp v
          → ((and_then (q, v) k).0 ≡ err e) × Stays s (and_then (q, v) k).1
      stop (ok a) v f q up = absurd (cc)
      stop (err x) v f q up = (cc, (q, up))
