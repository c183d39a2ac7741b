-- ===== src/Presence.antt =====
-- redis-presence-store.ts and src/application/use-cases/presence. The hash `presence:<user>` is the
-- list of the connections in it; a hash that expires is one that is empty at the next call.
use backend_java_spring_boot.Prelude.{
  ℕ, Bool, true, false, ◌&&◌, not, List, [], ◌∷◌, any, filter, remove, ◌==◌, if◌then◌else◌,
}
pub mod Offline
pub mod Expiry
pub mod Deadlines
pub mod Silence
mod Tests

-- A field of the hash of a user.
pub record Connection : Type 0 where
  pub user : ℕ
  pub conn : ℕ

-- What is published on `presence:global`, without its time.
pub data PresenceEvent : Type 0 where
  presence_online presence_offline : (user : ℕ) → PresenceEvent

pub record Presence : Type 0 where
  pub connections : List Connection
  pub published : List PresenceEvent

abbrev pub field : (user conn : ℕ) → Connection → Bool
field user conn c = (c.user == user) && (c.conn == conn)

-- `hset`
unfoldable pub hset : (user conn : ℕ) → Presence → Presence
hset user conn s = record s {
  connections =
      if any (field user conn) s.connections
      then s.connections
      else record { user = user; conn = conn } ∷ s.connections;
}

-- `isOnline`: `hlen` is above 0.
abbrev pub is_online : ℕ → Presence → Bool
is_online user s = any (λ c. c.user == user) s.connections

-- `listOnline`
abbrev pub list_online : List ℕ → Presence → List ℕ
list_online users s = filter (λ u. is_online u s) users

abbrev pub announce : PresenceEvent → Presence → Presence
announce e s = record s { published = e ∷ s.published }

-- `MarkUserOnline.execute`
unfoldable pub mark_user_online : (user conn : ℕ) → Presence → Presence
unfolding hset
mark_user_online user conn s = announce (presence_online user) (hset user conn s)

-- `Heartbeat.execute`
unfoldable pub heartbeat : (user conn : ℕ) → Presence → Presence
unfolding hset
heartbeat user conn s = hset user conn s

-- `hdel`
abbrev pub without : (user conn : ℕ) → Presence → Presence
without user conn s = record s { connections = remove (field user conn) s.connections }

-- `MarkUserOffline.execute`
unfoldable pub mark_user_offline : (user conn : ℕ) → Presence → Presence
mark_user_offline user conn s =
    if any (field user conn) s.connections
    then if is_online user (without user conn s)
      then without user conn s
      else announce (presence_offline user) (without user conn s)
    else s
