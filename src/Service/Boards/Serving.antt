-- ===== src/Service/Boards/Serving.antt =====
-- The steps that the methods of BoardService share, and what each of them ensures.
use docflow_core.Prelude.{
  ℕ, ◌≡◌, refl, sym, ◌≢◌, Bool, true, false, Option, none, some, List, get_or, arith, if◌then◌else◌,
}
use mathlib.Core.Path.{subst}
use docflow_core.Model.{Role, Error, same_role}
use docflow_core.Model.Store.{Store, BoardEvent}
use docflow_core.Exec.{Exec, ◌>>=◌, pure, raise}
use docflow_core.Exec.Reads.{Reads, Reads-pure, Reads-if, Reads-weaken}
use docflow_core.Exec.Ensures.{
  Outcome, Ensures, Ensures-Reads, Ensures-raise, Ensures-if, Outcome-weaken,
}
use docflow_core.Repo.Boards.Writes.{Replaced}
use docflow_core.Service.Access.{contains_role, require_board_role, check_access}
use docflow_core.Service.Access.Sight.{CanSee, check_access-Reads, require_board_role-Reads}
use docflow_core.Service.Boards.{owner_only, owner_or_admin, when_given}
use docflow_core.Service.Boards.Request.{Request, Caller}
use docflow_core.Service.Boards.Rights.{IsGiven, IsBoardManager, Granted}

-- The request has been granted, and no event has been sent.
abbrev pub Done : ℕ → Caller → Request → Store → List BoardEvent → Store → List BoardEvent → Type 0
Done board c r s es t es' = Granted board c r s t × (es' ≡ es)

pub owner_only-true : (r : Role) → contains_role r owner_only ≡ true → r ≡ Role.owner
owner_only-true r h = ground arith

pub owner_or_admin-true : (r : Role) → contains_role r owner_or_admin ≡ true → IsBoardManager r
owner_or_admin-true r h = ground arith

not_admin :
    (role : Option Role)
    → same_role (get_or role Role.editor) Role.admin ≡ false
    → role ≢ some Role.admin
not_admin none low = ground arith
not_admin (some r) low = ground arith

module _ (board : ℕ) (c : Caller) (s : Store) (es : List BoardEvent) where
  -- Run on the database s, m grants the request or fails and changes nothing.
  abbrev pub Serves : {A : Type 0} → Request → Exec A → Type 0
  Serves r = Ensures (Outcome s es (λ _. Done board c r s es)) s es

  -- A read whose failure ends the method.
  pub read_next :
      {A B : Type 0} (r : Request) (F : Store → A → Type 0) (m : Exec A) (k : A → Exec B)
      → Reads F m
      → ((a : A) → F s a → Serves r (k a))
      → Serves r (m >>= k)
  read_next r F m k h next = Ensures-Reads _ s es F m k h (λ e. (refl, refl)) next

  -- The access check that every method starts with.
  pub seen_first :
      {A : Type 0} (r : Request) (k : Unit {0} → Exec A)
      → (CanSee s board c.user c.workspace_role → Serves r (k tt))
      → Serves r (check_access board c.user c.workspace_role >>= k)
  seen_first r k h =
      read_next r _ _ k (check_access-Reads board c.user c.workspace_role) (λ _ seen. h seen)

  -- The test of the board role that comes next.
  pub role_next :
      {A : Type 0} (r : Request) (allowed : List Role) (k : Unit {0} → Exec A)
      → (contains_role c.board_role allowed ≡ true → Serves r (k tt))
      → Serves r (require_board_role c.board_role allowed >>= k)
  role_next r allowed k h =
      read_next r _ _ k (require_board_role-Reads c.board_role allowed) (λ _ held. h held)

  -- The test of `if req.Visibility != nil` and the like.
  pub IsGiven-Reads :
      {A : Type 0} (o : Option A) (allowed : List Role)
      → Reads
          (λ _ _. IsGiven o → contains_role c.board_role allowed ≡ true)
          (when_given o (require_board_role c.board_role allowed))
  IsGiven-Reads none allowed = Reads-pure _ tt (λ _ h. absurd h)
  IsGiven-Reads (some a) allowed =
      Reads-weaken _ _ _ (λ _ _ e _. e) (require_board_role-Reads c.board_role allowed)

  -- The test that only the owner makes an admin.
  pub admin_grant-Reads :
      (role : Option Role)
      → Reads
          (λ _ _. role ≡ some Role.admin → c.board_role ≡ Role.owner)
          (if same_role (get_or role Role.editor) Role.admin
            then require_board_role c.board_role owner_only
            else pure tt)
  admin_grant-Reads role =
      Reads-if _ (same_role (get_or role Role.editor) Role.admin) _ _
        (λ _.
          Reads-weaken _ _ _ (λ _ _ e _. owner_only-true _ e)
            (require_board_role-Reads c.board_role owner_only))
        (λ low. Reads-pure _ tt (λ _. λ e. absurd (not_admin role low e)))

  -- A test that ends the method with an error.
  pub unless :
      {A : Type 0} (r : Request) (b : Bool) (e : Error) (m : Exec A)
      → (b ≡ false → Serves r m)
      → Serves r (if b then raise e else m)
  unless r b e m h = Ensures-if _ s es b _ m (λ _. Ensures-raise _ s es e (refl, refl)) h

  -- The write that ends the method.
  pub written :
      {A : Type 0} (r : Request) (t : Store) (m : Exec A)
      → Granted board c r s t
      → Ensures (Outcome s es (Replaced es t)) s es m
      → Serves r m
  written r t m g h =
      Outcome-weaken s es _ _ m (λ _ u _ q. (subst (Granted board c r s) (sym q.0) g, q.1)) h
