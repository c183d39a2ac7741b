-- ===== src/Ws/Synced.antt =====
-- The invariant that ties the sockets in a room to the subscription on the bus.
use backend_java_spring_boot.Prelude.{
  ℕ, ◌+◌, ◌-◌, ◌≤◌, ◌≡◌, refl, true, some, List, [], ◌∷◌, find?, remove, update, count, ◌==◌, arith,
  if◌then◌else◌,
}
use backend_java_spring_boot.Ws.Registry.{Seat, BusEntry, Registry, seat, with_refs, drop_handler}

abbrev pub in_seats : ℕ → List Seat → ℕ
in_seats room = count (λ x. x.room == room)

abbrev pub at_seat : ℕ → ℕ → List Seat → ℕ
at_seat room ws = count (seat room ws)

abbrev pub entries : ℕ → List BusEntry → ℕ
entries room = count (λ e. e.room == room)

abbrev pub handlers : ℕ → List ℕ → ℕ
handlers room = count (λ h. h == room)

-- The references that the entries of a room count.
abbrev pub refs : ℕ → List BusEntry → ℕ
refs room [] = 0
refs room (e ∷ es) = (if e.room == room then e.ref_count else 0) + refs room es

-- A room has at most one entry, which counts the sockets in the room, at least one; the bus
-- holds one handler for each entry; and a socket knows the rooms that it sits in.
pub record IsSynced (s : Registry) : Type 0 where
  pub one_entry : (r : ℕ) → entries r s.room_bus_unsub ≤ 1
  pub counted : (r : ℕ) → refs r s.room_bus_unsub ≡ in_seats r s.room_local_subs
  pub held : (r : ℕ) → entries r s.room_bus_unsub ≤ refs r s.room_bus_unsub
  pub wired : (r : ℕ) → handlers r s.bus_handlers ≡ entries r s.room_bus_unsub
  pub known : (r ws : ℕ) → at_seat r ws s.rooms_of ≡ at_seat r ws s.room_local_subs
  pub once : (r ws : ℕ) → at_seat r ws s.room_local_subs ≤ 1

pub entries-none : (r : ℕ) (es : List BusEntry) → entries r es ≡ 0 → refs r es ≡ 0
entries-none r [] h = refl
entries-none r (x ∷ xs) h = ground (arith, entries-none r xs)

pub refs_found :
    (r q : ℕ) (es : List BusEntry) (e : BusEntry)
    → find? (λ x. x.room == q) es ≡ some e
    → entries q es ≤ 1
    → (r == q) ≡ true
    → refs r es ≡ e.ref_count
refs_found r q [] e f h t = ground arith
refs_found r q (x ∷ xs) e f h t = ground (arith, refs_found r q xs e, entries-none r xs)

refs-update_none :
    (r q n : ℕ) (es : List BusEntry)
    → entries q es ≡ 0
    → refs r (update (λ x. x.room == q) (with_refs n) es) ≡ refs r es
refs-update_none r q n [] h = refl
refs-update_none r q n (x ∷ xs) h = ground (arith, refs-update_none r q n xs)

-- One more reference to the room `q`.
pub refs-one_more :
    (r q : ℕ) (es : List BusEntry) (e : BusEntry)
    → find? (λ x. x.room == q) es ≡ some e
    → entries q es ≤ 1
    → refs r (update (λ x. x.room == q) (with_refs (e.ref_count + 1)) es)
      ≡ (if r == q then 1 else 0) + refs r es
refs-one_more r q [] e f h = ground arith
refs-one_more r q (x ∷ xs) e f h =
    ground (arith, refs-one_more r q xs e, refs-update_none r q (e.ref_count + 1) xs)

-- One less.
pub refs-one_less :
    (r q : ℕ) (es : List BusEntry) (e : BusEntry)
    → find? (λ x. x.room == q) es ≡ some e
    → entries q es ≤ 1
    → refs r (update (λ x. x.room == q) (with_refs (e.ref_count - 1)) es)
      ≡ refs r es - (if r == q then 1 else 0)
refs-one_less r q [] e f h = ground arith
refs-one_less r q (x ∷ xs) e f h =
    ground
      (arith, refs-one_less r q xs e, refs-update_none r q (e.ref_count - 1) xs, entries-none r xs)

pub refs-remove :
    (r q : ℕ) (es : List BusEntry)
    → refs r (remove (λ x. x.room == q) es) ≡ (if r == q then 0 else refs r es)
refs-remove r q [] = ground arith
refs-remove r q (x ∷ xs) = ground (arith, refs-remove r q xs)

pub handlers-drop :
    (r q : ℕ) (hs : List ℕ)
    → handlers r (drop_handler q hs) ≡ handlers r hs - (if r == q then 1 else 0)
handlers-drop r q [] = ground arith
handlers-drop r q (x ∷ xs) = ground (arith, handlers-drop r q xs)

-- The sockets in a room, after one is taken out.
pub in_seats-remove :
    (r q ws : ℕ) (l : List Seat)
    → in_seats r (remove (seat q ws) l) + (if r == q then at_seat q ws l else 0) ≡ in_seats r l
in_seats-remove r q ws [] = ground arith
in_seats-remove r q ws (x ∷ xs) = ground (arith, in_seats-remove r q ws xs)
