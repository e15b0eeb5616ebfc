-- ===== src/Exec.antt =====
-- How repositories and services run: each call of the driver may fail, a transaction is undone
-- unless it commits, and a Go error return is an exception.
pub mod Reads
pub mod Ensures
pub mod Steps
pub mod Answers
use docflow_core.Prelude.{
  ℕ, ◌+◌, Bool, true, false, Option, none, some, List, [], ◌∷◌, ◌++◌, if◌then◌else◌,
}
use docflow_core.Model.{Error}
use docflow_core.Model.Error.{driver, record_not_found}
use docflow_core.Model.Store.{Store, World, BoardEvent, Payload, Result, ok, err}

-- The services' and repositories' methods. What was committed before an error stays committed, so
-- the world comes back with the error too.
abbrev pub Exec : Type 0 → Type 0
Exec A = World → Result A × World

module _ {A : Type 0} where
  abbrev pub pure : A → Exec A
  pure a w = (ok a, w)

  abbrev pub raise : Error → Exec A
  raise e w = (err e, w)

module _ {A B : Type 0} where
  abbrev pub and_then : Result A × World → (A → Exec B) → Result B × World
  and_then (ok a, w) f = f a w
  and_then (err e, w) f = (err e, w)

  infixl 5 ◌>>=◌
  abbrev pub ◌>>=◌ : Exec A → (A → Exec B) → Exec B
  ◌>>=◌ m f w = and_then (m w) f

infixl 5 ◌>>◌
abbrev pub ◌>>◌ : {A B : Type 0} → Exec A → Exec B → Exec B
m >> k = m >>= λ _. k

abbrev pub require : Bool → Error → Exec (Unit {0})
require true e w = (ok tt, w)
require false e w = (err e, w)

abbrev pub later : World → World
later w = record w { tick = w.tick + 1 }

module _ {A : Type 0} where
  -- A statement that reads: `QueryRow`, `Query`.
  unfoldable pub query : (Store → Result A) → Exec A
  query f w = if w.outage w.tick then (err driver, later w) else (f w.db, later w)

  -- A statement that writes: `Exec`, or `QueryRow` on `… RETURNING`.
  unfoldable pub execute : (Store → Result A × Store) → Exec A
  execute f w =
      if w.outage w.tick
      then (err driver, later w)
      else (let (r, s) = f w.db in (r, record w { db = s; tick = w.tick + 1 }))

  -- No row found is repositories.ErrNotFound.
  abbrev pub found : Option A → Result A
  found none = err record_not_found
  found (some a) = ok a

  -- `if errors.Is(err, repositories.ErrNotFound) { return …, e }; return …, err`
  abbrev pub translate : Error → Result A → Result A
  translate e (ok a) = ok a
  translate e (err record_not_found) = err e
  translate e (err x) = err x

  unfoldable pub missing_as : Error → Exec A → Exec A
  missing_as e m w = let (r, w') = m w in (translate e r, w')

  -- A row may be missing; other errors are passed on.
  abbrev pub absent : Result A → Result (Option A)
  absent (ok a) = ok (some a)
  absent (err record_not_found) = ok none
  absent (err x) = err x

  unfoldable pub optional : Exec A → Exec (Option A)
  optional m w = let (r, w') = m w in (absent r, w')

module _ {A : Type 0} where
  -- What comes from the process and not from the driver: the clock, a hash, a signature.
  unfoldable pub ask : (World → Result A) → Exec A
  ask f w = (f w, w)

  abbrev pub no_error : Result A → Option A
  no_error (ok a) = some a
  no_error (err e) = none

  -- The error is looked at no further, as in `_ = …`.
  unfoldable pub attempt : Exec A → Exec (Option A)
  attempt m w = let (r, w') = m w in (ok (no_error r), w')

-- `time.Now()`, on the clock that NOW() has too
unfoldable pub time_now : Exec ℕ
unfolding ask
time_now = ask λ w. ok w.db.now

-- `Begin`, which may fail, as may `Commit`
unfoldable pub round_trip : Exec (Unit {0})
unfolding query
round_trip = query (λ _. ok tt)

module _ {A : Type 0} where
  -- What `defer tx.Rollback` leaves unless the transaction has been committed.
  abbrev settle : Store → Result A × World → Result A × World
  settle s (ok a, w) = (ok a, w)
  settle s (err e, w) = (err e, record w { db = s })

  unfoldable pub transaction : Exec A → Exec A
  unfolding round_trip
  transaction body w = settle w.db ((do round_trip; a ← body; round_trip; pure a) w)

-- `utils.GenerateRefreshToken`, whose only source of failure is crypto/rand
unfoldable pub generate_token : Exec ℕ
generate_token w =
    if w.outage w.tick then (err driver, later w) else (ok (w.random w.tick), later w)

-- `hub.BroadcastToBoard`, which returns nothing
unfoldable pub broadcast : ℕ → Payload → Exec (Unit {0})
broadcast b p w =
    (ok tt, record w { events = w.events ++ (record { board_id = b; payload = p } ∷ []) })
