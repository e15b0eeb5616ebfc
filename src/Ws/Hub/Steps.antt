-- ===== src/Ws/Hub/Steps.antt =====
-- internal/ws/hub.go: each document, and each board, has at most one room that is running.
use mathlib.Core.Path.{subst}
use docflow_core.Prelude.{
  find_row-deleted, find_row-delete_other, ==_iff, ==_refl, ◌<◌, ℕ, suc, ◌≡◌, ◌≢◌, refl, sym, ap,
  ◌∙◌, ◌⊎◌, inl, inr, ◌==◌, Bool, true, false, Option, none, some, find_row, delete_rows,
  if◌then◌else◌, arith, Bool-cases,
}
use docflow_core.Ws.Hub.{
  Kind, Hub, Entry, has_key, find_room, with_room, with_new_room, get_or_create, make_room,
  remove_room, run, new_hub, Step, Ran,
}
use docflow_core.Ws.Hub.Laws.{Laws}

none≢some : {A : Type 0} {a : A} → none ≢ some a
none≢some e = cc

true≢false : true ≢ false
true≢false e = cc

some-injective : {A : Type 0} {a b : A} → some a ≡ some b → a ≡ b
some-injective e = cc

module _ {R E : Type 0} (kind : Kind R E) (Good : R → Type 0) (May : E → R → Type 0)
    (laws : Laws kind Good May) where
  abbrev IsLive : ℕ → Hub R → Type 0
  IsLive i h = (i < h.next) × (kind.is_done (h.rooms i) ≡ false)

  -- The map leads to rooms of its keys, and to every room that is running.
  pub record Inv (h : Hub R) : Type 0 where
    pub good : (i : ℕ) → Good (h.rooms i)
    pub below : (k : ℕ) (e : Entry) → find_room kind k h ≡ some e → e.handle < h.next
    pub listed :
        (i : ℕ)
        → IsLive i h
        → find_room kind (h.names i) h ≡ some (record { key = h.names i; handle = i })

  new-Inv : Inv (new_hub kind)
  new-Inv = record {
    good = λ i. laws.new_good;
    below = λ k e h. absurd (cc);
    listed = λ i live. absurd (omega (arith, live.0));
  }

  abbrev entry : ℕ → ℕ → Entry
  entry k i = record { key = k; handle = i }

  add-Inv : (k : ℕ) (h : Hub R) → Inv h → find_room kind k h ≡ none → Inv (with_new_room kind k h)
  add-Inv k h inv absent = record {
    good = λ i. elim (i == h.next) as (λ b. Good (if b then kind.new else h.rooms i)) [
      | true ↦ laws.new_good
      | false ↦ inv.good i
    ];
    below = λ j e f. below j e (Bool-cases (k == j)) f;
    listed = λ i live. listed i live (Bool-cases (i == h.next));
  }
    where
      below :
          (j : ℕ) (e : Entry)
          → ((k == j) ≡ true) ⊎ ((k == j) ≡ false)
          → find_room kind j (with_new_room kind k h) ≡ some e
          → e.handle < suc h.next
      below j e (inl same) f = ground (arith, same, f)
      below j e (inr other) f = ground (arith, other, f, inv.below j e)

      listed :
          (i : ℕ)
          → IsLive i (with_new_room kind k h)
          → ((i == h.next) ≡ true) ⊎ ((i == h.next) ≡ false)
          → let n = if i == h.next then k else h.names i in
            find_room kind n (with_new_room kind k h) ≡ some (record { key = n; handle = i })
      listed i live (inl new) =
          subst at (sym new)
            (rw (==_refl k) (ap (λ j. some (entry k j)) (sym ((==_iff i h.next).0 new))))
        where
          at : Bool → Type 0
          at b =
              let n = if b then k else h.names i in
              find_room kind n (with_new_room kind k h) ≡ some (entry n i)
      listed i live (inr old) =
          subst at (sym old) (elsewhere (Bool-cases (k == h.names i)) (inv.listed i old_live))
        where
          at : Bool → Type 0
          at b =
              let n = if b then k else h.names i in
              find_room kind n (with_new_room kind k h) ≡ some (entry n i)

          old_live : IsLive i h
          old_live = (ground (arith, old, live.0), ground (arith, old, live.1))

          elsewhere :
              ((k == h.names i) ≡ true) ⊎ ((k == h.names i) ≡ false)
              → find_room kind (h.names i) h ≡ some (entry (h.names i) i)
              → (if k == h.names i then some (entry k h.next) else find_room kind (h.names i) h)
                ≡ some (entry (h.names i) i)
          elsewhere (inl e) known = absurd (
              none≢some (
                sym absent
                ∙ subst (λ n. find_room kind n h ≡ some (entry (h.names i) i))
                    (sym ((==_iff k (h.names i)).0 e)) known))
          elsewhere (inr e) known = rw (e) known

  make-Inv : (k : ℕ) (h : Hub R) → Inv h → Inv (make_room kind k h).1
  unfolding make_room
  make-Inv k h inv = made (find_room kind k h) refl
    where
      made :
          (o : Option Entry)
          → find_room kind k h ≡ o
          → let r : ℕ × Hub R = elim o [
            | some e ↦ (e.handle, h)
            | none ↦ (h.next, with_new_room kind k h)
          ] in
            Inv r.1
      made none e = add-Inv k h inv e
      made (some x) e = inv

  run-Inv :
      (i : ℕ) (e : E) (h g : Hub R) → Inv h → May e (h.rooms i) → run kind i e h ≡ some g → Inv g
  run-Inv i e h g inv may done = ran (kind.turn e (h.rooms i)) refl done
    where
      ran :
          (o : Option R)
          → kind.turn e (h.rooms i) ≡ o
          → (elim o [ none ↦ none | some r ↦ some (with_room kind i r h) ]) ≡ some g
          → Inv g
      ran none f d = absurd (cc)
      ran (some r) f d = subst Inv (some-injective d) (record {
        good = λ j. elim (j == i) as (λ b. Good (if b then r else h.rooms j)) [
          | true ↦ laws.turn_good e (h.rooms i) r may f
          | false ↦ inv.good j
        ];
        below = inv.below;
        listed = λ j live. inv.listed j (live.0, was_live j (Bool-cases (j == i)) live.1);
      })
        where
          was_live :
              (j : ℕ)
              → ((j == i) ≡ true) ⊎ ((j == i) ≡ false)
              → kind.is_done (if j == i then r else h.rooms j) ≡ false
              → kind.is_done (h.rooms j) ≡ false
          was_live j (inl same) live = elim (Bool-cases (kind.is_done (h.rooms j))) [
            | inr e ↦ e
            | inl ended ↦ absurd (
                true≢false (
                  sym (
                    laws.stays e (h.rooms i) r
                      (subst (λ x. kind.is_done (h.rooms x) ≡ true) ((==_iff j i).0 same) ended) f)
                  ∙ subst (λ b. kind.is_done (if b then r else h.rooms j) ≡ false) same live))
          ]
          was_live j (inr other) live = ground (arith, other, live)

  remove-Inv :
      (i : ℕ) (h : Hub R) → Inv h → kind.is_done (h.rooms i) ≡ true → Inv (remove_room kind i h)
  unfolding remove_room
  remove-Inv i h inv done = removed (find_room kind (h.names i) h) refl
    where
      removed :
          (o : Option Entry)
          → find_room kind (h.names i) h ≡ o
          → Inv (elim o [
            | none ↦ h
            | some e ↦
                if e.handle == i
                then record h { entries = delete_rows (has_key (h.names i)) h.entries }
                else h
          ])
      removed none f = inv
      removed (some e) f = elim (Bool-cases (e.handle == i)) [
        | inr other ↦ rw (other) inv
        | inl same ↦ rw (same) (record { good = inv.good; below = below; listed = listed e f same })
      ]
        where
          left : ℕ → Option Entry
          left k = find_row (has_key k) (delete_rows (has_key (h.names i)) h.entries)

          left_other : (k : ℕ) → (k == h.names i) ≡ false → left k ≡ find_room kind k h
          left_other k other =
              find_row-delete_other (has_key k) (has_key (h.names i)) h.entries
                (λ x e. ground (arith, e, other))

          below : (k : ℕ) (x : Entry) → left k ≡ some x → x.handle < h.next
          below k x g = elim (Bool-cases (k == h.names i)) [
            | inr other ↦ inv.below k x (sym (left_other k other) ∙ g)
            | inl same ↦ absurd (
                none≢some (
                  sym (find_row-deleted (has_key (h.names i)) h.entries)
                  ∙ subst (λ n. left n ≡ some x) ((==_iff k (h.names i)).0 same) g))
          ]

          listed :
              (e : Entry)
              → find_room kind (h.names i) h ≡ some e
              → (e.handle == i) ≡ true
              → (j : ℕ) → IsLive j h
              → left (h.names j) ≡ some (entry (h.names j) j)
          listed e f same j live = elim (Bool-cases (h.names j == h.names i)) [
            | inr other ↦ left_other (h.names j) other ∙ inv.listed j live
            | inl twin ↦ absurd (
                true≢false
                  (sym (subst (λ x. kind.is_done (h.rooms x) ≡ true) (i-j twin) done) ∙ live.1))
          ]
            where
              i-j : (h.names j == h.names i) ≡ true → i ≡ j
              i-j twin =
                  sym ((==_iff e.handle i).0 same)
                  ∙ ap (λ x. x.handle)
                      (some-injective (
                        sym f
                        ∙ subst (λ n. find_room kind n h ≡ some (entry (h.names j) j))
                            ((==_iff (h.names j) (h.names i)).0 twin) (inv.listed j live)))

  step-Inv : (h g : Hub R) → Step kind May h g → Inv h → Inv g
  step-Inv _ _ (Step.made k h) inv = make-Inv k h inv
  step-Inv _ _ (Step.ran i e h g below may done) inv = run-Inv i e h g inv may done
  step-Inv _ _ (Step.removed i h below done) inv = remove-Inv i h inv done

  pub Ran-Inv : (h : Hub R) → Ran kind May h → Inv h
  Ran-Inv h Ran.start = new-Inv
  Ran-Inv g (Ran.then {h = h} past step) = step-Inv h g step (Ran-Inv h past)

  -- Two running rooms of one key are one.
  pub one_live_room :
      (h : Hub R) (i j : ℕ)
      → Ran kind May h
      → i < h.next
      → j < h.next
      → kind.is_done (h.rooms i) ≡ false
      → kind.is_done (h.rooms j) ≡ false
      → h.names i ≡ h.names j
      → (i ≡ j) × ((get_or_create kind (h.names i) h).0 ≡ i)
  unfolding get_or_create
  one_live_room h i j past i_made j_made i_live j_live same =
      let inv = Ran-Inv h past in
      let i_listed = inv.listed i (i_made, i_live) in
      let j_listed = inv.listed j (j_made, j_live) in
      (
        ap (λ x. x.handle)
            (some-injective (
              sym i_listed
              ∙ subst (λ n. find_room kind n h ≡ some (entry n j)) (sym same) j_listed)),
        subst
            (λ o.
              let r : ℕ × Hub R = elim o [
                | some e ↦ (e.handle, h)
                | none ↦ make_room kind (h.names i) h
              ] in
              r.0 ≡ i)
            (sym i_listed) refl,
      )
