-- ===== src/Ws/Delivery.antt =====
-- What reaches the sockets: the handlers' loops over connection-registry.ts, the states that they
-- can lead to, and the copies of an event that `fanOutBusEvent` sends there.
use backend_java_spring_boot.Prelude.{
  ℕ, ◌+◌, ◌≤◌, ◌≡◌, refl, inl, inr, List, [], ◌∷◌, ◌++◌, any, filter, remove, map, count, is_some,
  ◌==◌, arith, if◌then◌else◌, Bool-cases,
}
use backend_java_spring_boot.World.{World}
use backend_java_spring_boot.Store.Rooms
use backend_java_spring_boot.Ws.Registry.{
  Seat, Registry, seat, unsubscribe_room, unsubscribe_all, rooms_seated, leave_rooms,
  subscribe_if_member, subscribe_all, fan_out, deliver_by, deliver,
}
use backend_java_spring_boot.Ws.Synced.{at_seat, handlers, IsSynced, in_seats-remove, entries-none}
use backend_java_spring_boot.Ws.Seats.{at_seat-remove}
use backend_java_spring_boot.Ws.Keeping.{subscribe_room-IsSynced, unsubscribe_room-IsSynced}

subscribe_if_member-IsSynced :
    (w : World) (user ws room : ℕ) (s : Registry)
    → IsSynced s
    → IsSynced (subscribe_if_member w user ws room s)
unfolding subscribe_if_member
subscribe_if_member-IsSynced w user ws room s k =
    elim (Bool-cases (is_some (Rooms.get_member room user w))) [
      | inl m ↦ rw m (elim (Bool-cases (any (seat room ws) s.rooms_of)) [
        | inl t ↦ rw t k
        | inr t ↦ rw t (subscribe_room-IsSynced ws room s k t)
      ])
      | inr m ↦ rw m k
    ]

subscribe_all-IsSynced :
    (w : World) (user ws : ℕ) (rooms : List ℕ) (s : Registry)
    → IsSynced s
    → IsSynced (subscribe_all w user ws rooms s)
unfolding subscribe_all
subscribe_all-IsSynced w user ws [] s k = k
subscribe_all-IsSynced w user ws (room ∷ rooms) s k =
    subscribe_all-IsSynced w user ws rooms (subscribe_if_member w user ws room s)
      (subscribe_if_member-IsSynced w user ws room s k)

pub rooms-unsubscribe :
    (ws room : ℕ) (s : Registry)
    → (unsubscribe_room ws room s).rooms_of ≡ remove (seat room ws) s.rooms_of
unfolding unsubscribe_room
rooms-unsubscribe ws room s = ground arith

at_seat-unsubscribe :
    (r ws room : ℕ) (s : Registry)
    → at_seat r ws (unsubscribe_room ws room s).rooms_of
      ≡ (if r == room then 0 else at_seat r ws s.rooms_of)
at_seat-unsubscribe r ws room s =
    rw (rooms-unsubscribe ws room s) (ground (arith, at_seat-remove r ws room ws s.rooms_of))

unsubscribe_all-IsSynced :
    (ws : ℕ) (rooms : List ℕ) (s : Registry)
    → IsSynced s
    → ((r : ℕ) → handlers r rooms ≤ at_seat r ws s.rooms_of)
    → IsSynced (unsubscribe_all ws rooms s)
unfolding unsubscribe_all
unsubscribe_all-IsSynced ws [] s k h = k
unsubscribe_all-IsSynced ws (room ∷ rooms) s k h =
    unsubscribe_all-IsSynced ws rooms (unsubscribe_room ws room s)
      (unsubscribe_room-IsSynced ws room s k
        (ground (arith, h room, k.once room ws, k.known room ws)))
      (λ r. ground (arith, h r, at_seat-unsubscribe r ws room s, k.once r ws, k.known r ws))

handlers-rooms_seated :
    (r ws : ℕ) (l : List Seat)
    → handlers r (map (λ x. x.room) (filter (λ x. x.ws == ws) l)) ≡ at_seat r ws l
handlers-rooms_seated r ws [] = refl
handlers-rooms_seated r ws (x ∷ xs) = ground (arith, handlers-rooms_seated r ws xs)

leave_rooms-IsSynced : (ws : ℕ) (s : Registry) → IsSynced s → IsSynced (leave_rooms ws s)
unfolding leave_rooms
leave_rooms-IsSynced ws s k =
    unsubscribe_all-IsSynced ws (rooms_seated ws s) s k
      (λ r. ground (arith, handlers-rooms_seated r ws s.rooms_of))

-- The copies that a socket gets of an event.
abbrev pub copies : ℕ → List ℕ → ℕ
copies ws = count (λ x. x == ws)

pub copies-append : (ws : ℕ) (l m : List ℕ) → copies ws (l ++ m) ≡ copies ws l + copies ws m
copies-append ws [] m = omega arith
copies-append ws (x ∷ xs) m = ground (arith, copies-append ws xs m)

pub deliver_by-none :
    (room ws : ℕ) (hs sockets : List ℕ)
    → handlers room hs ≡ 0
    → copies ws (deliver_by room hs sockets) ≡ 0
deliver_by-none room ws [] l h = refl
deliver_by-none room ws (x ∷ xs) l h =
    ground (arith, deliver_by-none room ws xs l, copies-append ws [] (deliver_by room xs l))

pub deliver_by-one :
    (room ws : ℕ) (hs sockets : List ℕ)
    → handlers room hs ≡ 1
    → copies ws (deliver_by room hs sockets) ≡ copies ws sockets
deliver_by-one room ws [] l h = ground arith
deliver_by-one room ws (x ∷ xs) l h = ground (
  arith,
  deliver_by-one room ws xs l,
  deliver_by-none room ws xs l,
  copies-append ws [] (deliver_by room xs l),
  copies-append ws l (deliver_by room xs l),
)

pub copies-fan_out :
    (room ws : ℕ) (l : List Seat)
    → copies ws (map (λ x. x.ws) (filter (λ x. x.room == room) l)) ≡ at_seat room ws l
copies-fan_out room ws [] = refl
copies-fan_out room ws (x ∷ xs) = ground (arith, copies-fan_out room ws xs)

abbrev pub no_sockets : Registry
no_sockets = record { room_local_subs = []; rooms_of = []; room_bus_unsub = []; bus_handlers = [] }

-- The registries that the handlers lead to from the empty one, where the awaits of
-- `subscribeRoom` do not overlap and a socket leaves only rooms that it sits in.
pub data Reached : Registry → Type 0 where
  start : Reached no_sockets
  -- `chat.subscribe` by a socket of the user, in the state of the memberships
  subscribed :
      {s : Registry}
      → Reached s
      → (w : World) (user ws : ℕ) (rooms : List ℕ) → Reached (subscribe_all w user ws rooms s)
  -- `chat.unsubscribe` of a room that the socket sits in
  unsubscribed :
      {s : Registry}
      → Reached s
      → (ws room : ℕ) → at_seat room ws s.rooms_of ≡ 1
      → Reached (unsubscribe_room ws room s)
  -- `close`
  closed : {s : Registry} → Reached s → (ws : ℕ) → Reached (leave_rooms ws s)

pub Reached-IsSynced : (s : Registry) → Reached s → IsSynced s
Reached-IsSynced s start = record {
  one_entry = λ r. omega arith;
  counted = λ r. refl;
  held = λ r. omega arith;
  wired = λ r. refl;
  known = λ r ws. refl;
  once = λ r ws. omega arith;
}
Reached-IsSynced s (subscribed {s = t} p w user ws rooms) =
    subscribe_all-IsSynced w user ws rooms t (Reached-IsSynced t p)
Reached-IsSynced s (unsubscribed {s = t} p ws room h) =
    unsubscribe_room-IsSynced ws room t (Reached-IsSynced t p) h
Reached-IsSynced s (closed {s = t} p ws) = leave_rooms-IsSynced ws t (Reached-IsSynced t p)

-- In every registry that the handlers lead to, while the awaits of `subscribeRoom` do not overlap
-- and a socket leaves only rooms that it sits in, an event on a room's channel reaches each socket
-- exactly as often as the socket sits in the room: once if it does, and not at all if it does not.
pub delivered_once :
    (s : Registry) (room ws : ℕ)
    → Reached s
    → (copies ws (deliver room s) ≡ at_seat room ws s.room_local_subs)
      × (at_seat room ws s.room_local_subs ≤ 1)
delivered_once s room ws p =
    let k = Reached-IsSynced s p in
    (
      ground (
        arith,
        deliver_by-one room ws s.bus_handlers (fan_out room s),
        deliver_by-none room ws s.bus_handlers (fan_out room s),
        copies-fan_out room ws s.room_local_subs,
        k.one_entry room,
        k.counted room,
        k.held room,
        k.wired room,
        entries-none room s.room_bus_unsub,
        in_seats-remove room room ws s.room_local_subs,
      ),
      k.once room ws,
    )
