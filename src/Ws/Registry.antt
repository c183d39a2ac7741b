-- ===== src/Ws/Registry.antt =====
-- connection-registry.ts, and the loops of handlers/chat-subscribe.ts and chat-unsubscribe.ts
-- over it. A `Map` of `Set`s from which the empty sets are deleted is the list of its pairs, a
-- socket is its connection id, and a room's handlers on the bus, which all call
-- `fanOutBusEvent` with that room, are counted by their room.
use backend_java_spring_boot.Prelude.{
  ℕ, ◌+◌, ◌-◌, Bool, ◌&&◌, not, Option, none, some, List, [], ◌∷◌, ◌++◌, any, find?, filter, remove,
  update, map, leb, is_some, ◌==◌, if◌then◌else◌,
}
use backend_java_spring_boot.World.{World}
use backend_java_spring_boot.Store.Rooms

-- A socket in a room.
pub record Seat : Type 0 where
  pub room : ℕ
  pub ws : ℕ

-- An entry of `roomBusUnsub`.
pub record BusEntry : Type 0 where
  pub room : ℕ
  pub ref_count : ℕ

pub record Registry : Type 0 where
  -- `roomLocalSubs`
  pub room_local_subs : List Seat
  -- `ws.data.rooms` of every socket
  pub rooms_of : List Seat
  pub room_bus_unsub : List BusEntry
  -- the rooms of the handlers that the bus holds
  pub bus_handlers : List ℕ

abbrev pub seat : ℕ → ℕ → Seat → Bool
seat room ws s = (s.room == room) && (s.ws == ws)

-- `Set.add`
abbrev pub add_seat : ℕ → ℕ → List Seat → List Seat
add_seat room ws seats =
    if any (seat room ws) seats then seats else record { room = room; ws = ws } ∷ seats

abbrev pub bus_entry : ℕ → Registry → Option BusEntry
bus_entry room s = find? (λ e. e.room == room) s.room_bus_unsub

abbrev pub with_refs : ℕ → BusEntry → BusEntry
with_refs n e = record e { ref_count = n }

-- The part of `subscribeRoom` before its `await`; without an entry the bus is asked next.
abbrev pub seated : (ws room : ℕ) → Registry → Registry
seated ws room s = record s {
  room_local_subs = add_seat room ws s.room_local_subs;
  rooms_of = add_seat room ws s.rooms_of;
}

-- `existing.refCount++`
abbrev pub one_more : (room n : ℕ) → Registry → Registry
one_more room n s = record s {
  room_bus_unsub = update (λ e. e.room == room) (with_refs (n + 1)) s.room_bus_unsub;
}

-- The part after the `await`: `Map.set`, beside the handler that the bus now holds.
unfoldable pub subscribed_on_bus : ℕ → Registry → Registry
subscribed_on_bus room s = record s {
  room_bus_unsub =
      record { room = room; ref_count = 1 } ∷ remove (λ e. e.room == room) s.room_bus_unsub;
  bus_handlers = room ∷ s.bus_handlers;
}

abbrev pub subscribe_with : Option BusEntry → ℕ → Registry → Registry
subscribe_with none room s = subscribed_on_bus room s
subscribe_with (some e) room s = one_more room e.ref_count s

-- `subscribeRoom`, where nothing else runs during its `await`
unfoldable pub subscribe_room : (ws room : ℕ) → Registry → Registry
unfolding subscribed_on_bus
subscribe_room ws room s =
    subscribe_with (bus_entry room (seated ws room s)) room (seated ws room s)

-- `unsub()`: the bus drops one handler of the room.
abbrev pub drop_handler : ℕ → List ℕ → List ℕ
drop_handler room [] = []
drop_handler room (h ∷ hs) = if h == room then hs else h ∷ drop_handler room hs

abbrev pub unseated : (ws room : ℕ) → Registry → Registry
unseated ws room s = record s {
  room_local_subs = remove (seat room ws) s.room_local_subs;
  rooms_of = remove (seat room ws) s.rooms_of;
}

-- `existing.unsub()`, and its entry goes
abbrev pub without_bus : ℕ → Registry → Registry
without_bus room s = record s {
  room_bus_unsub = remove (λ x. x.room == room) s.room_bus_unsub;
  bus_handlers = drop_handler room s.bus_handlers;
}

-- `existing.refCount--`
abbrev pub with_one_less : (room n : ℕ) → Registry → Registry
with_one_less room n s = record s {
  room_bus_unsub = update (λ x. x.room == room) (with_refs (n - 1)) s.room_bus_unsub;
}

-- `refCount--`, and the end of the subscription where nothing is left of it
abbrev pub one_less : Option BusEntry → ℕ → Registry → Registry
one_less none room s = s
one_less (some e) room s =
    if leb (e.ref_count - 1) 0 then without_bus room s else with_one_less room e.ref_count s

-- `unsubscribeRoom`
unfoldable pub unsubscribe_room : (ws room : ℕ) → Registry → Registry
unsubscribe_room ws room s =
    one_less (bus_entry room (unseated ws room s)) room (unseated ws room s)

-- The loop of `handleChatUnsubscribe`.
unfoldable pub unsubscribe_all : (ws : ℕ) → List ℕ → Registry → Registry
unsubscribe_all ws [] s = s
unsubscribe_all ws (room ∷ rooms) s = unsubscribe_all ws rooms (unsubscribe_room ws room s)

-- `[...ws.data.rooms]`
abbrev pub rooms_seated : ℕ → Registry → List ℕ
rooms_seated ws s = map (λ x. x.room) (filter (λ x. x.ws == ws) s.rooms_of)

-- The loop of `unregister`.
unfoldable pub leave_rooms : ℕ → Registry → Registry
leave_rooms ws s = unsubscribe_all ws (rooms_seated ws s) s

-- One round of `handleChatSubscribe`, for a socket of the user.
unfoldable pub subscribe_if_member : World → (user ws room : ℕ) → Registry → Registry
subscribe_if_member w user ws room s =
    if is_some (Rooms.get_member room user w) && not (any (seat room ws) s.rooms_of)
    then subscribe_room ws room s
    else s

-- The loop of `handleChatSubscribe`, while the memberships stay as they are.
unfoldable pub subscribe_all : World → (user ws : ℕ) → List ℕ → Registry → Registry
subscribe_all w user ws [] s = s
subscribe_all w user ws (room ∷ rooms) s =
    subscribe_all w user ws rooms (subscribe_if_member w user ws room s)

-- `fanOutBusEvent`: the sockets that it sends to.
abbrev pub fan_out : ℕ → Registry → List ℕ
fan_out room s = map (λ x. x.ws) (filter (λ x. x.room == room) s.room_local_subs)

-- An event on the channel of the room: every handler of the room fans it out.
abbrev pub deliver_by : ℕ → List ℕ → List ℕ → List ℕ
deliver_by room [] sockets = []
deliver_by room (h ∷ hs) sockets = (if h == room then sockets else []) ++ deliver_by room hs sockets

abbrev pub deliver : ℕ → Registry → List ℕ
deliver room s = deliver_by room s.bus_handlers (fan_out room s)
