-- ===== src/Messages/Pages.antt =====
-- The pages of a room's messages.
use backend_java_spring_boot.Prelude.{
  ℕ, ⊤, ◌&&◌, zero, suc, ◌≤◌, ◌<◌, ◌≡◌, refl, ◌⊎◌, inl, inr, true, Option, none, some, List, [],
  ◌∷◌, map, length, All, filter, take, sort_by, newest_first, IsFalling, is_some, ◌==◌, arith,
  Option-cases, Bool-cases, ltb, count, length-take, All-take, All-sort_by, All-filter,
  sort_by-IsFalling, take-IsFalling, count-sort_by, count-take_le,
}
use backend_java_spring_boot.Domain.{Message, to_message_dto, ok, forbidden}
use backend_java_spring_boot.World.{World, Decides}
use backend_java_spring_boot.Store.Rooms
use backend_java_spring_boot.Store.Messages.{list_by_room, in_page}
use backend_java_spring_boot.Messages.UseCases.{list_messages}

-- Of the room, and before the cursor where one is given.
abbrev pub InPage : ℕ → Option ℕ → Message → Type 0
InPage room none m = m.room_id ≡ room
InPage room (some before) m = (m.room_id ≡ room) × (m.id < before)

page-InPage :
    (room : ℕ) (before : Option ℕ) (m : Message)
    → in_page room before m ≡ true
    → InPage room before m
page-InPage room none m h = ground arith
page-InPage room (some before) m h = (ground arith, ground arith)

-- A page holds only messages of the room, before the cursor where there is one, the newest
-- first, and at most as many as the limit says.
pub list_by_room_page :
    (room : ℕ) (before : Option ℕ) (limit : ℕ) (w : World)
    → let page = list_by_room room before limit w in
      All (InPage room before) page × IsFalling (λ m. m.id) page × (length page ≤ limit)
unfolding list_by_room
list_by_room_page room before limit w =
    let test = in_page room before in
    let rows = filter test w.messages in
    let sorted = sort_by (newest_first (λ (m : Message). m.id)) rows in
    (
      All-take (InPage room before) limit sorted (
          All-sort_by (InPage room before) (newest_first (λ (m : Message). m.id)) rows
            (All-filter (InPage room before) test w.messages (page-InPage room before))),
      take-IsFalling (λ m. m.id) limit sorted (sort_by-IsFalling (λ m. m.id) rows),
      length-take limit sorted,
    )

abbrev pub with_id : ℕ → List Message → ℕ
with_id i = count (λ m. m.id == i)

bounded_id : (i k : ℕ) (xs : List Message) → All (λ y. y.id ≤ k) xs → 1 ≤ with_id i xs → i ≤ k
bounded_id i k [] h c = absurd (omega arith)
bounded_id i k (x ∷ xs) h c = elim (Bool-cases (x.id == i)) [
  | inl e ↦ let same : x.id ≡ i = ground arith in ground (arith, h.0)
  | inr e ↦ bounded_id i k xs h.1 (ground arith)
]

-- What a limit cuts off comes after all that it lets through.
take_complete :
    (n i : ℕ) (xs : List Message)
    → IsFalling (λ m. m.id) xs
    → (with_id i (take n xs) ≡ with_id i xs)
      ⊎ ((length (take n xs) ≡ n) × All (λ x. i ≤ x.id) (take n xs))
take_complete zero i xs h = inr (refl, tt)
take_complete (suc n) i [] h = inl refl
take_complete (suc n) i (x ∷ xs) (top, h) = elim (take_complete n i xs h) [
  | inl same ↦ inl (omega (arith, same))
  | inr (full, above) ↦ elim (Bool-cases (ltb 0 (with_id i xs))) [
    | inl some_left ↦ inr (omega (arith, full), (bounded_id i x.id xs top (ground arith), above))
    | inr none_left ↦ inl (ground (arith, none_left, count-take_le (λ m. m.id == i) n xs))
  ]
]

-- An id before the cursor, where there is one
abbrev pub IsBefore : Option ℕ → ℕ → Type 0
IsBefore none i = ⊤
IsBefore (some before) i = i < before

-- The rows of the page's query keep every row of the room under an id before the cursor.
count-in_page :
    (room i : ℕ) (before : Option ℕ) (ms : List Message)
    → IsBefore before i
    → with_id i (filter (in_page room before) ms)
      ≡ count (λ m. (m.room_id == room) && (m.id == i)) ms
count-in_page room i before [] h = refl
count-in_page room i none (m ∷ ms) h = ground (arith, count-in_page room i none ms h)
count-in_page room i (some before) (m ∷ ms) h =
    ground (arith, count-in_page room i (some before) ms h)

-- No message is skipped, deleted ones included: for an id before the cursor, where there is one,
-- the page holds as many messages under it as the table holds under it in the room, or the page is
-- full and holds only messages that are as new or newer.
pub list_by_room_complete :
    (room : ℕ) (before : Option ℕ) (limit i : ℕ) (w : World)
    → IsBefore before i
    → let page = list_by_room room before limit w in
      (with_id i page ≡ count (λ m. (m.room_id == room) && (m.id == i)) w.messages)
      ⊎ ((length page ≡ limit) × All (λ m. i ≤ m.id) page)
unfolding list_by_room
list_by_room_complete room before limit i w earlier =
    let rows = filter (in_page room before) w.messages in
    let sorted = sort_by (newest_first (λ (m : Message). m.id)) rows in
    rw (← count-in_page room i before w.messages earlier) (
      rw (← count-sort_by (λ m. m.id == i) (newest_first (λ (m : Message). m.id)) rows)
        (take_complete limit i sorted (sort_by-IsFalling (λ m. m.id) rows)))

-- A member gets the page, as the room's messages are; anybody else is refused. Nothing changes.
pub list_messages-Decides :
    (room requester : ℕ) (before : Option ℕ) (limit : ℕ) (w : World)
    → Decides
        (is_some (Rooms.get_member room requester w))
        w
        (ok (map to_message_dto (list_by_room room before limit w)), w)
        (list_messages room requester before limit w)
unfolding list_messages
list_messages-Decides room requester before limit w =
    elim (Option-cases (Rooms.get_member room requester w)) [
      | inl n ↦ rw n (forbidden "Not a member of this room", refl)
      | inr (m, n) ↦ rw n refl
    ]
