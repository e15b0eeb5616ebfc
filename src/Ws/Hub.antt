-- ===== src/Ws/Hub.antt =====
-- internal/ws/hub.go: the maps of Hub. A step is a section under one lock, a turn of a room, or the
-- look at a room whose Run has returned. The map of document rooms and that of board rooms are kept
-- by the same code, so the room is a parameter.
pub mod Laws
pub mod Steps
pub mod Rooms
use docflow_core.Prelude.{
  ◌<◌, ◌≤◌, ℕ, suc, ◌≡◌, ◌==◌, Bool, true, Option, none, some, List, [], ◌∷◌, find_row, delete_rows,
  if◌then◌else◌,
}

-- What the hub knows of its rooms: the room that NewRoom makes, a turn of Run, whether `done` is
-- closed, and the number of clients
pub record Kind (R E : Type 0) : Type 0 where
  pub new : R
  pub turn : E → R → Option R
  pub is_done : R → Bool
  pub size : R → ℕ

-- An entry of the map. Rooms are pointers: a handle stands for one.
pub record Entry : Type 0 where
  pub key : ℕ
  pub handle : ℕ

-- `rooms` has the rooms that handles below `next` stand for, `names` the identifiers that they were
-- made for.
pub record Hub (R : Type 0) : Type 0 where
  pub entries : List Entry
  pub rooms : ℕ → R
  pub names : ℕ → ℕ
  pub next : ℕ

abbrev pub has_key : ℕ → Entry → Bool
has_key k e = e.key == k

module _ {R E : Type 0} (kind : Kind R E) where
  -- `h.docRooms[documentID]`
  abbrev pub find_room : ℕ → Hub R → Option Entry
  find_room k h = find_row (has_key k) h.entries

  abbrev pub with_room : ℕ → R → Hub R → Hub R
  with_room i r h = record h { rooms = λ j. if j == i then r else h.rooms j }

  abbrev pub with_new_room : ℕ → Hub R → Hub R
  with_new_room k h = record {
    entries = record { key = k; handle = h.next } ∷ h.entries;
    rooms = λ j. if j == h.next then kind.new else h.rooms j;
    names = λ j. if j == h.next then k else h.names j;
    next = suc h.next;
  }

  -- The slow path of GetOrCreateDocRoom, under the write lock
  unfoldable pub make_room : ℕ → Hub R → ℕ × Hub R
  make_room k h = elim (find_room k h) [
    | some e ↦ (e.handle, h)
    | none ↦ (h.next, with_new_room k h)
  ]

  -- GetOrCreateDocRoom, when nothing comes between its two locks
  unfoldable pub get_or_create : ℕ → Hub R → ℕ × Hub R
  unfolding make_room
  get_or_create k h = elim (find_room k h) [ some e ↦ (e.handle, h) | none ↦ make_room k h ]

  -- watchDocRoom, once `done` is closed
  unfoldable pub remove_room : ℕ → Hub R → Hub R
  remove_room i h = elim (find_room (h.names i) h) [
    | none ↦ h
    | some e ↦
        if e.handle == i
        then record h { entries = delete_rows (has_key (h.names i)) h.entries }
        else h
  ]

  -- RoomSize
  unfoldable pub room_size : ℕ → Hub R → ℕ
  room_size k h = elim (find_room k h) [ none ↦ 0 | some e ↦ kind.size (h.rooms e.handle) ]

  -- A turn of the room that the handle stands for, where none is a panic
  abbrev pub run : ℕ → E → Hub R → Option (Hub R)
  run i e h = elim (kind.turn e (h.rooms i)) [ none ↦ none | some r ↦ some (with_room i r h) ]

  abbrev pub new_hub : Hub R
  new_hub = record { entries = []; rooms = λ i. kind.new; names = λ i. 0; next = 0 }

  -- A document room, a client's room and the watcher may take their steps in any order.
  pub data Step (May : E → R → Type 0) : Hub R → Hub R → Type 0 where
    made : (k : ℕ) (h : Hub R) → Step May h (make_room k h).1
    ran :
        (i : ℕ) (e : E) (h g : Hub R)
        → i < h.next
        → May e (h.rooms i)
        → run i e h ≡ some g
        → Step May h g
    removed :
        (i : ℕ) (h : Hub R)
        → i < h.next
        → kind.is_done (h.rooms i) ≡ true
        → Step May h (remove_room i h)

  pub data Ran (May : E → R → Type 0) : Hub R → Type 0 where
    start : Ran May new_hub
    then : {h g : Hub R} → Ran May h → Step May h g → Ran May g
