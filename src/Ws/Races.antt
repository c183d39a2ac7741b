-- ===== src/Ws/Races.antt =====
-- What connection-registry.ts does where a socket unsubscribes a room that it is not in, and where
-- two subscriptions to a room without an entry overlap in the `await` of `subscribeRoom`.
use backend_java_spring_boot.Prelude.{
  ℕ, ◌+◌, ◌-◌, ◌≡◌, refl, ◌∙◌, inl, inr, false, List, [], ◌∷◌, any, remove, leb, ◌==◌, arith,
  Bool-cases, Option-cases, find?-none→count,
}
use backend_java_spring_boot.Ws.Registry.{
  Seat, Registry, seat, add_seat, bus_entry, seated, subscribed_on_bus, unsubscribe_room,
  drop_handler, fan_out, deliver_by, deliver,
}
use backend_java_spring_boot.Ws.Synced.{
  in_seats, at_seat, handlers, refs, IsSynced, refs_found, refs-remove, handlers-drop, entries-none,
}
use backend_java_spring_boot.Ws.Seats.{at_seat-remove}
use backend_java_spring_boot.Ws.Delivery.{
  copies, copies-append, copies-fan_out, deliver_by-none, deliver_by-one,
}

-- In a registry whose entries, handlers and seats agree (`IsSynced`), where one socket alone sits
-- in the room, `unsubscribeRoom` for another socket leaves the first
-- one seated and takes the room's channel away: no event of the room reaches it any more.
pub stranger_cuts_off :
    (s : Registry) (room ws stranger : ℕ)
    → IsSynced s
    → in_seats room s.room_local_subs ≡ 1
    → at_seat room ws s.room_local_subs ≡ 1
    → (ws == stranger) ≡ false
    → (at_seat room ws (unsubscribe_room stranger room s).room_local_subs ≡ 1)
      × (copies ws (deliver room (unsubscribe_room stranger room s)) ≡ 0)
unfolding unsubscribe_room
stranger_cuts_off s room ws stranger k one h d = elim (Option-cases (bus_entry room s)) [
  | inl n ↦
      ground (arith, entries-none room s.room_bus_unsub (find?-none→count _ _ n), k.counted room)
  | inr (e, f) ↦ rw f (elim (Bool-cases (leb (e.ref_count - 1) 0)) [
    | inl t ↦ rw t (
      ground (arith, at_seat-remove room ws room stranger s.room_local_subs),
      deliver_by-none room ws (drop_handler room s.bus_handlers) _
          (ground (arith, handlers-drop room room s.bus_handlers, k.wired room, k.one_entry room)),
    )
    | inr t ↦
        ground (arith, refs_found room room s.room_bus_unsub e f (k.one_entry room), k.counted room)
  ])
]

-- The two rounds of `handleChatSubscribe` whose calls of the bus overlap: both sockets are seated
-- and both find no entry before either call returns.
unfoldable pub overlapping : (ws other room : ℕ) → Registry → Registry
overlapping ws other room s =
    subscribed_on_bus room (subscribed_on_bus room (seated other room (seated ws room s)))

deliver_by-two :
    (room ws : ℕ) (hs sockets : List ℕ)
    → handlers room hs ≡ 2
    → copies ws (deliver_by room hs sockets) ≡ copies ws sockets + copies ws sockets
deliver_by-two room ws [] l h = ground arith
deliver_by-two room ws (x ∷ xs) l h = ground (
  arith,
  deliver_by-one room ws xs l,
  deliver_by-two room ws xs l,
  copies-append ws [] (deliver_by room xs l),
  copies-append ws l (deliver_by room xs l),
)

empty-any : (room ws : ℕ) (l : List Seat) → in_seats room l ≡ 0 → any (seat room ws) l ≡ false
empty-any room ws [] h = refl
empty-any room ws (x ∷ xs) h = ground (arith, empty-any room ws xs)

empty-at_seat : (room ws : ℕ) (l : List Seat) → in_seats room l ≡ 0 → at_seat room ws l ≡ 0
empty-at_seat room ws [] h = refl
empty-at_seat room ws (x ∷ xs) h = ground (arith, empty-at_seat room ws xs)

handlers-overlapping :
    (s : Registry) (room ws other : ℕ)
    → IsSynced s
    → in_seats room s.room_local_subs ≡ 0
    → handlers room (overlapping ws other room s).bus_handlers ≡ 2
unfolding overlapping subscribed_on_bus
handlers-overlapping s room ws other k h = ground (arith, k.wired room, k.held room, k.counted room)

seat-overlapping :
    (room ws other : ℕ) (l : List Seat)
    → in_seats room l ≡ 0
    → at_seat room ws (add_seat room other (add_seat room ws l)) ≡ 1
seat-overlapping room ws other l h = ground (arith, empty-any room ws l, empty-at_seat room ws l)

refs-overlapping :
    (s : Registry) (room ws other : ℕ) → refs room (overlapping ws other room s).room_bus_unsub ≡ 1
unfolding overlapping subscribed_on_bus
refs-overlapping s room ws other =
    ground (arith, refs-remove room room (remove (λ e. e.room == room) s.room_bus_unsub))

copies-overlapping :
    (s : Registry) (room ws other : ℕ)
    → IsSynced s
    → in_seats room s.room_local_subs ≡ 0
    → copies ws (fan_out room (overlapping ws other room s)) ≡ 1
unfolding overlapping subscribed_on_bus
copies-overlapping s room ws other k h =
    copies-fan_out room ws (add_seat room other (add_seat room ws s.room_local_subs))
    ∙ seat-overlapping room ws other s.room_local_subs h

-- In a registry whose entries, handlers and seats agree (`IsSynced`), after two overlapping
-- subscriptions to a room that nobody was in, the bus holds two handlers for
-- the room beside one reference in its entry, and the first of the two sockets gets every event twice.
pub overlapping_twice :
    (s : Registry) (room ws other : ℕ)
    → IsSynced s
    → in_seats room s.room_local_subs ≡ 0
    → (handlers room (overlapping ws other room s).bus_handlers ≡ 2)
      × (refs room (overlapping ws other room s).room_bus_unsub ≡ 1)
      × (copies ws (deliver room (overlapping ws other room s)) ≡ 2)
overlapping_twice s room ws other k h =
    let two = handlers-overlapping s room ws other k h in
    (
      two,
      refs-overlapping s room ws other,
      ground (
        arith,
        deliver_by-two room ws (overlapping ws other room s).bus_handlers
            (fan_out room (overlapping ws other room s)) two,
        copies-overlapping s room ws other k h,
      ),
    )
