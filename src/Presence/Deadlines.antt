-- ===== src/Presence/Deadlines.antt =====
-- How long a user is online.
use backend_java_spring_boot.Prelude.{
  ℕ, ◌+◌, ◌*◌, ◌≤◌, ◌≡◌, Bool, true, false, ◌&&◌, not, List, [], ◌∷◌, any, filter, remove, leb, ltb,
  ◌==◌, arith,
}
use backend_java_spring_boot.Presence.{
  Connection, Presence, field, hset, mark_user_online, mark_user_offline, heartbeat,
}
use backend_java_spring_boot.Presence.Expiry.{
  Timed, settle, Step, opened, beaten, closed, time_of, apply, run, is_online_at,
}

-- A step between two times that does not close the connection
abbrev pub spares : (from until user conn : ℕ) → Step → Bool
spares from until user conn (closed time u c) =
    leb from time && ltb time until && not ((u == user) && (c == conn))
spares from until user conn x = leb from (time_of x) && ltb (time_of x) until

abbrev pub all_spare : (from until user conn : ℕ) → List Step → Bool
all_spare from until user conn [] = true
all_spare from until user conn (x ∷ xs) =
    spares from until user conn x && all_spare from until user conn xs

module _ (user conn : ℕ) where
  -- The connection is in the hash of its user, which is kept until a time.
  abbrev IsKept : ℕ → Timed → Type 0
  IsKept until s = (any (field user conn) s.presence.connections ≡ true) × (until ≤ s.deadline user)

  filter-kept :
      (p : Connection → Bool) (cs : List Connection)
      → ((c : Connection) → c.user ≡ user → p c ≡ true)
      → any (field user conn) cs ≡ true
      → any (field user conn) (filter p cs) ≡ true
  filter-kept p [] h k = k
  filter-kept p (c ∷ cs) h k = ground (arith, filter-kept p cs h, h c)

  remove-kept :
      (u k : ℕ) (cs : List Connection)
      → (u == user) && (k == conn) ≡ false
      → any (field user conn) cs ≡ true
      → any (field user conn) (remove (field u k) cs) ≡ true
  remove-kept u k [] h e = e
  remove-kept u k (c ∷ cs) h e = ground (arith, remove-kept u k cs h)

  field-online :
      (cs : List Connection) → any (field user conn) cs ≡ true → any (λ c. c.user == user) cs ≡ true
  field-online [] h = h
  field-online (c ∷ cs) h = ground (arith, field-online cs)

  settle-kept :
      (now until : ℕ) (s : Timed)
      → now ≤ until
      → IsKept until s
      → any (field user conn) (settle now s).connections ≡ true
  settle-kept now until s early (h, d) =
      filter-kept (λ c. leb now (s.deadline c.user)) s.presence.connections
        (λ c e. rw e (ground arith)) h

  hset-kept :
      (u c : ℕ) (s : Presence)
      → any (field user conn) s.connections ≡ true
      → any (field user conn) (hset u c s).connections ≡ true
  unfolding hset
  hset-kept u c s h = ground arith

  offline-kept :
      (u c : ℕ) (s : Presence)
      → (u == user) && (c == conn) ≡ false
      → any (field user conn) s.connections ≡ true
      → any (field user conn) (mark_user_offline u c s).connections ≡ true
  unfolding mark_user_offline
  offline-kept u c s other h = ground (arith, remove-kept u c s.connections other h)

  apply-IsKept :
      (ttl_sec from : ℕ) (x : Step) (s : Timed)
      → let until = from + ttl_sec * 1000 in
        spares from until user conn x ≡ true → IsKept until s → IsKept until (apply ttl_sec x s)
  unfolding apply mark_user_online heartbeat hset mark_user_offline
  apply-IsKept ttl_sec from (opened time u c) s ok kept =
      let here = settle-kept time (from + ttl_sec * 1000) s (ground arith) kept in
      (hset-kept u c (settle time s) here, ground arith)
  apply-IsKept ttl_sec from (beaten time u c) s ok kept =
      let here = settle-kept time (from + ttl_sec * 1000) s (ground arith) kept in
      (hset-kept u c (settle time s) here, ground arith)
  apply-IsKept ttl_sec from (closed time u c) s ok kept =
      let here = settle-kept time (from + ttl_sec * 1000) s (ground arith) kept in
      (offline-kept u c (settle time s) (ground arith) here, kept.1)

  hset-held : (s : Presence) → any (field user conn) (hset user conn s).connections ≡ true
  unfolding hset
  hset-held s = ground arith

  beaten-IsKept :
      (ttl_sec from : ℕ) (s : Timed)
      → IsKept (from + ttl_sec * 1000) (apply ttl_sec (beaten from user conn) s)
  unfolding apply heartbeat
  beaten-IsKept ttl_sec from s = (hset-held (settle from s), ground arith)

  run-IsKept :
      (ttl_sec from : ℕ) (xs : List Step) (s : Timed)
      → let until = from + ttl_sec * 1000 in
        all_spare from until user conn xs ≡ true → IsKept until s → IsKept until (run ttl_sec xs s)
  run-IsKept ttl_sec from [] s ok kept = kept
  run-IsKept ttl_sec from (x ∷ xs) s ok kept =
      run-IsKept ttl_sec from xs (apply ttl_sec x s) (ground arith)
        (apply-IsKept ttl_sec from x s (ground arith) kept)

  -- A heartbeat keeps its user online for the lifetime of the setting, whatever the other
  -- connections of this and of other users do in that time, unless the connection itself is closed.
  pub beat_keeps_online :
      (ttl_sec from now : ℕ) (xs : List Step) (s : Timed)
      → all_spare from (from + ttl_sec * 1000) user conn xs ≡ true
      → now ≤ from + ttl_sec * 1000
      → is_online_at now user (run ttl_sec xs (apply ttl_sec (beaten from user conn) s)) ≡ true
  beat_keeps_online ttl_sec from now xs s ok early =
      let until = from + ttl_sec * 1000 in
      let s' = apply ttl_sec (beaten from user conn) s in
      let kept = run-IsKept ttl_sec from xs s' ok (beaten-IsKept ttl_sec from s) in
      field-online _ (settle-kept now until (run ttl_sec xs s') early kept)
