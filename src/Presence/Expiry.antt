-- ===== src/Presence/Expiry.antt =====
-- redis-presence-store.ts with `expire`: the hash of a user is gone once the clock is past its time. Every
-- operation begins with what Redis drops by then; the times are milliseconds of Redis.
use backend_java_spring_boot.Prelude.{
  ℕ, ◌+◌, ◌*◌, Bool, List, [], ◌∷◌, filter, leb, ◌==◌, if◌then◌else◌,
}
use backend_java_spring_boot.Presence.{
  Presence, is_online, mark_user_online, mark_user_offline, heartbeat,
}

-- `deadline` is when the hash of a user expires; it says nothing of a user without connections.
pub record Timed : Type 0 where
  pub presence : Presence
  pub deadline : ℕ → ℕ

-- What is left at a time
abbrev pub settle : (now : ℕ) → Timed → Presence
settle now s = record s.presence {
  connections = filter (λ c. leb now (s.deadline c.user)) s.presence.connections;
}

-- `expire(presence:<user>, ttlSec)`
abbrev pub expire : (now ttl_sec user : ℕ) → (ℕ → ℕ) → ℕ → ℕ
expire now ttl_sec user deadline u = if u == user then now + ttl_sec * 1000 else deadline u

-- What the sockets ask for
pub data Step : Type 0 where
  opened beaten closed : (time user conn : ℕ) → Step

abbrev pub time_of : Step → ℕ
time_of (opened time user conn) = time
time_of (beaten time user conn) = time
time_of (closed time user conn) = time

-- `MarkUserOnline`, `Heartbeat` and `MarkUserOffline`, with the store that they call
unfoldable pub apply : (ttl_sec : ℕ) → Step → Timed → Timed
apply ttl_sec (opened time user conn) s = record {
  presence = mark_user_online user conn (settle time s);
  deadline = expire time ttl_sec user s.deadline;
}
apply ttl_sec (beaten time user conn) s = record {
  presence = heartbeat user conn (settle time s);
  deadline = expire time ttl_sec user s.deadline;
}
apply ttl_sec (closed time user conn) s = record s {
  presence = mark_user_offline user conn (settle time s);
}

abbrev pub run : (ttl_sec : ℕ) → List Step → Timed → Timed
run ttl_sec [] s = s
run ttl_sec (x ∷ xs) s = run ttl_sec xs (apply ttl_sec x s)

-- `isOnline`
abbrev pub is_online_at : (now user : ℕ) → Timed → Bool
is_online_at now user s = is_online user (settle now s)
