-- ===== src/Ws/Keeping.antt =====
-- subscribeRoom and unsubscribeRoom of connection-registry.ts keep the registry in step with the
-- bus, where a socket takes a seat that it does not have and leaves one that it has.
use backend_java_spring_boot.Prelude.{
  ℕ, ◌+◌, ◌-◌, ◌≡◌, ◌≢◌, sym, ◌∙◌, inl, inr, true, false, none, some, any, leb, arith, Bool-cases,
  Option-cases, any-false→count, find?-none→count,
}
use backend_java_spring_boot.Ws.Registry.{
  BusEntry, Registry, seat, bus_entry, seated, one_more, subscribed_on_bus, subscribe_room,
  unseated, unsubscribe_room, without_bus, with_one_less,
}
use backend_java_spring_boot.Ws.Synced.{
  at_seat, IsSynced, entries-none, refs_found, refs-one_more, refs-one_less, refs-remove,
  handlers-drop, in_seats-remove,
}
use backend_java_spring_boot.Ws.Seats.{
  in_seats-add, at_seat-add, at_seat→any, entries-update, entries-remove, at_seat-remove,
  no_entry-refs, no_entry-entries, at_seat-add_once,
}

one_more-IsSynced :
    (ws room : ℕ) (s : Registry) (e : BusEntry)
    → IsSynced s
    → any (seat room ws) s.rooms_of ≡ false
    → bus_entry room s ≡ some e
    → IsSynced (one_more room e.ref_count (seated ws room s))
one_more-IsSynced ws room s e k h f =
    let free =
      at_seat→any room ws s.room_local_subs (sym (k.known room ws) ∙ any-false→count _ _ h) in
    record {
      one_entry = λ r.
          ground (arith, entries-update r room (e.ref_count + 1) s.room_bus_unsub, k.one_entry r);
      counted = λ r. ground (
        arith,
        refs-one_more r room s.room_bus_unsub e f (k.one_entry room),
        k.counted r,
        in_seats-add r room ws s.room_local_subs free,
      );
      held = λ r. ground (
        arith,
        refs-one_more r room s.room_bus_unsub e f (k.one_entry room),
        k.held r,
        entries-update r room (e.ref_count + 1) s.room_bus_unsub,
      );
      wired = λ r. k.wired r ∙ sym (entries-update r room (e.ref_count + 1) s.room_bus_unsub);
      known = λ r q. ground (
        arith,
        at_seat-add r q room ws s.rooms_of h,
        at_seat-add r q room ws s.room_local_subs free,
        k.known r q,
      );
      once = λ r q. at_seat-add_once r q room ws s.room_local_subs free (k.once r q);
    }

subscribed_on_bus-IsSynced :
    (ws room : ℕ) (s : Registry)
    → IsSynced s
    → any (seat room ws) s.rooms_of ≡ false
    → bus_entry room s ≡ none
    → IsSynced (subscribed_on_bus room (seated ws room s))
unfolding subscribed_on_bus
subscribed_on_bus-IsSynced ws room s k h f =
    let free =
      at_seat→any room ws s.room_local_subs (sym (k.known room ws) ∙ any-false→count _ _ h) in
    record {
      one_entry = λ r. ground (arith, entries-remove r room s.room_bus_unsub, k.one_entry r);
      counted = λ r. ground (
        arith,
        refs-remove r room s.room_bus_unsub,
        no_entry-refs r room s.room_bus_unsub f,
        k.counted r,
        in_seats-add r room ws s.room_local_subs free,
      );
      held = λ r. ground (
        arith,
        refs-remove r room s.room_bus_unsub,
        entries-remove r room s.room_bus_unsub,
        k.held r,
      );
      wired = λ r. ground (
        arith,
        entries-remove r room s.room_bus_unsub,
        no_entry-entries r room s.room_bus_unsub f,
        k.wired r,
      );
      known = λ r q. ground (
        arith,
        at_seat-add r q room ws s.rooms_of h,
        at_seat-add r q room ws s.room_local_subs free,
        k.known r q,
      );
      once = λ r q. at_seat-add_once r q room ws s.room_local_subs free (k.once r q);
    }

-- A socket that does not sit in the room yet takes its seat.
pub subscribe_room-IsSynced :
    (ws room : ℕ) (s : Registry)
    → IsSynced s
    → any (seat room ws) s.rooms_of ≡ false
    → IsSynced (subscribe_room ws room s)
unfolding subscribe_room
subscribe_room-IsSynced ws room s k h = elim (Option-cases (bus_entry room s)) [
  | inl n ↦ rw n (subscribed_on_bus-IsSynced ws room s k h n)
  | inr (e, f) ↦ rw f (one_more-IsSynced ws room s e k h f)
]

-- The room of a seated socket has an entry.
seated-entry :
    (ws room : ℕ) (s : Registry)
    → IsSynced s
    → at_seat room ws s.rooms_of ≡ 1
    → bus_entry room s ≢ none
seated-entry ws room s k h n = ground (
  arith,
  entries-none room s.room_bus_unsub (find?-none→count _ _ n),
  k.counted room,
  k.known room ws,
  in_seats-remove room room ws s.room_local_subs,
)

-- The last one leaves, and the handler of the room goes.
last_out-IsSynced :
    (ws room : ℕ) (s : Registry) (e : BusEntry)
    → IsSynced s
    → at_seat room ws s.rooms_of ≡ 1
    → bus_entry room s ≡ some e
    → leb (e.ref_count - 1) 0 ≡ true
    → IsSynced (without_bus room (unseated ws room s))
last_out-IsSynced ws room s e k h f l = record {
  one_entry = λ r. ground (arith, entries-remove r room s.room_bus_unsub, k.one_entry r);
  counted = λ r. ground (
    arith,
    refs-remove r room s.room_bus_unsub,
    refs_found r room s.room_bus_unsub e f (k.one_entry room),
    k.counted r,
    k.known room ws,
    in_seats-remove r room ws s.room_local_subs,
  );
  held = λ r. ground (
    arith,
    entries-remove r room s.room_bus_unsub,
    refs-remove r room s.room_bus_unsub,
    k.held r,
  );
  wired = λ r. ground (
    arith,
    entries-remove r room s.room_bus_unsub,
    handlers-drop r room s.bus_handlers,
    k.wired r,
    k.one_entry r,
  );
  known = λ r q. ground (
    arith,
    at_seat-remove r q room ws s.rooms_of,
    at_seat-remove r q room ws s.room_local_subs,
    k.known r q,
  );
  once = λ r q. ground (arith, at_seat-remove r q room ws s.room_local_subs, k.once r q);
}

one_out-IsSynced :
    (ws room : ℕ) (s : Registry) (e : BusEntry)
    → IsSynced s
    → at_seat room ws s.rooms_of ≡ 1
    → bus_entry room s ≡ some e
    → leb (e.ref_count - 1) 0 ≡ false
    → IsSynced (with_one_less room e.ref_count (unseated ws room s))
one_out-IsSynced ws room s e k h f l = record {
  one_entry =
      λ r. ground (arith, entries-update r room (e.ref_count - 1) s.room_bus_unsub, k.one_entry r);
  counted = λ r. ground (
    arith,
    refs-one_less r room s.room_bus_unsub e f (k.one_entry room),
    k.counted r,
    k.known room ws,
    in_seats-remove r room ws s.room_local_subs,
  );
  held = λ r. ground (
    arith,
    refs-one_less r room s.room_bus_unsub e f (k.one_entry room),
    k.held r,
    k.one_entry r,
    refs_found r room s.room_bus_unsub e f (k.one_entry room),
    entries-update r room (e.ref_count - 1) s.room_bus_unsub,
  );
  wired = λ r. k.wired r ∙ sym (entries-update r room (e.ref_count - 1) s.room_bus_unsub);
  known = λ r q. ground (
    arith,
    at_seat-remove r q room ws s.rooms_of,
    at_seat-remove r q room ws s.room_local_subs,
    k.known r q,
  );
  once = λ r q. ground (arith, at_seat-remove r q room ws s.room_local_subs, k.once r q);
}

-- A socket that sits in the room leaves it.
pub unsubscribe_room-IsSynced :
    (ws room : ℕ) (s : Registry)
    → IsSynced s
    → at_seat room ws s.rooms_of ≡ 1
    → IsSynced (unsubscribe_room ws room s)
unfolding unsubscribe_room
unsubscribe_room-IsSynced ws room s k h = elim (Option-cases (bus_entry room s)) [
  | inl n ↦ elim (seated-entry ws room s k h n) [ ]
  | inr (e, f) ↦ rw f (elim (Bool-cases (leb (e.ref_count - 1) 0)) [
    | inl t ↦ rw t (last_out-IsSynced ws room s e k h f t)
    | inr t ↦ rw t (one_out-IsSynced ws room s e k h f t)
  ])
]
