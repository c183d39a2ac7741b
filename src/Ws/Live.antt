-- ===== src/Ws/Live.antt =====
-- The open sockets as the abstract view of what gateway.ts, connection-registry.ts and
-- redis-presence-store.ts keep of them, over the runs of one server.
use backend_java_spring_boot.Prelude.{
  ℕ, ◌≡◌, refl, ◌∙◌, inl, inr, true, false, not, List, [], ◌∷◌, any, remove, map, ◌==◌, Option,
  arith,
}
use backend_java_spring_boot.World.{World}
use backend_java_spring_boot.Presence.{
  Connection, Presence, field, is_online, heartbeat, mark_user_online, mark_user_offline, hset,
}
use backend_java_spring_boot.Json.{Json}
use backend_java_spring_boot.Controllers.{Outside, Moment}
use backend_java_spring_boot.Ws.Delivery.{no_sockets}
use backend_java_spring_boot.Ws.Socket.{WsData, Hub}
use backend_java_spring_boot.Ws.Router.{dispatch}
use backend_java_spring_boot.Ws.Gateway.{
  is_socket, is_empty, register, unregister, open_socket, close_socket, fan_out_presence,
}
use backend_java_spring_boot.Ws.Lifetime.{dispatch-Beats}

-- A server that has just started
abbrev pub fresh : World → Hub
fresh w = record {
  world = w;
  presence = record { connections = []; published = [] };
  registry = no_sockets;
  user_conns = [];
  presence_unsub = false;
  sent = [];
}

-- The runs of the only server, by the sockets that are open at their end, where no hash of
-- Redis expires.
pub data Runs (out : Outside) : List WsData → Hub → Type 0 where
  start : (w : World) → Runs out [] (fresh w)
  -- a socket with a new connection id
  opened :
      {live : List WsData} {s : Hub}
      → Runs out live s
      → (ws : WsData) → any (is_socket ws) live ≡ false
      → Runs out (ws ∷ live) (open_socket ws s)
  -- a frame of an live socket
  framed :
      {live : List WsData} {s : Hub}
      → Runs out live s
      → (moment : Moment) (ws : WsData) (raw : Option Json) → any (is_socket ws) live ≡ true
      → Runs out live (dispatch out moment ws raw s)
  closed :
      {live : List WsData} {s : Hub}
      → Runs out live s
      → (ws : WsData) → any (is_socket ws) live ≡ true
      → Runs out (remove (is_socket ws) live) (close_socket ws s)
  -- what the requests of the API do to the tables
  elsewhere :
      {live : List WsData} {s : Hub}
      → Runs out live s
      → (w : World) → Runs out live (record s { world = w })

abbrev pub connection_of : WsData → Connection
connection_of ws = record { user = ws.user_id; conn = ws.conn_id }

-- What is kept of the sockets, by the open ones.
abbrev Mirrors : List WsData → Hub → Type 0
Mirrors live s =
    (s.presence.connections ≡ map connection_of live)
    × (s.user_conns ≡ live)
    × (s.presence_unsub ≡ not (is_empty live))

any-field :
    (ws : WsData) (live : List WsData)
    → any (field ws.user_id ws.conn_id) (map connection_of live) ≡ any (is_socket ws) live
any-field ws [] = refl
any-field ws (x ∷ xs) = ground (arith, any-field ws xs)

remove-field :
    (ws : WsData) (live : List WsData)
    → remove (field ws.user_id ws.conn_id) (map connection_of live)
      ≡ map connection_of (remove (is_socket ws) live)
remove-field ws [] = refl
remove-field ws (x ∷ xs) = ground (arith, remove-field ws xs)

any-user :
    (user : ℕ) (live : List WsData)
    → any (λ c. c.user == user) (map connection_of live) ≡ any (λ ws. ws.user_id == user) live
any-user user [] = refl
any-user user (x ∷ xs) = ground (arith, any-user user xs)

heartbeat-kept :
    (ws : WsData) (live : List WsData) (p : Presence)
    → p.connections ≡ map connection_of live
    → any (is_socket ws) live ≡ true
    → (heartbeat ws.user_id ws.conn_id p).connections ≡ map connection_of live
unfolding heartbeat hset
heartbeat-kept ws live p h k = rw h (rw (any-field ws live) (rw k refl))

opened-Mirrors :
    (ws : WsData) (live : List WsData) (s : Hub)
    → Mirrors live s
    → any (is_socket ws) live ≡ false
    → Mirrors (ws ∷ live) (open_socket ws s)
unfolding open_socket register mark_user_online hset
opened-Mirrors ws live s (c, u, o) new =
    (rw c (rw (any-field ws live) (rw new refl)), rw u (rw new refl), refl)

some_live :
    (ws : WsData) (live : List WsData) → any (is_socket ws) live ≡ true → is_empty live ≡ false
some_live ws [] h = cc
some_live ws (x ∷ xs) h = refl

offline-connections :
    (user conn : ℕ) (p : Presence)
    → any (field user conn) p.connections ≡ true
    → (mark_user_offline user conn p).connections ≡ remove (field user conn) p.connections
unfolding mark_user_offline
offline-connections user conn p h = ground arith

closed-Mirrors :
    (ws : WsData) (live : List WsData) (s : Hub)
    → Mirrors live s
    → any (is_socket ws) live ≡ true
    → Mirrors (remove (is_socket ws) live) (close_socket ws s)
unfolding close_socket unregister
closed-Mirrors ws live s (c, u, o) old =
    let known : any (field ws.user_id ws.conn_id) s.presence.connections ≡ true =
      rw c (any-field ws live ∙ old) in
    (
      offline-connections ws.user_id ws.conn_id s.presence known ∙ rw c (remove-field ws live),
      rw u refl,
      rw o (rw (some_live ws live old) (rw u refl)),
    )

framed-Mirrors :
    (out : Outside) (moment : Moment) (ws : WsData) (raw : Option Json) (live : List WsData)
    (s : Hub)
    → Mirrors live s
    → any (is_socket ws) live ≡ true
    → Mirrors live (dispatch out moment ws raw s)
framed-Mirrors out moment ws raw live s (c, u, o) known =
    let (p, u', o') = dispatch-Beats out moment ws raw s in
    (
      elim p [
        | inl same ↦ rw same c
        | inr beat ↦ rw beat (heartbeat-kept ws live s.presence c known)
      ],
      u' ∙ u,
      o' ∙ o,
    )

Runs-Mirrors : (out : Outside) (live : List WsData) (s : Hub) → Runs out live s → Mirrors live s
Runs-Mirrors out live s (start w) = (refl, refl, refl)
Runs-Mirrors out live s (opened {live = l} {s = t} r ws new) =
    opened-Mirrors ws l t (Runs-Mirrors out l t r) new
Runs-Mirrors out live s (framed {live = l} {s = t} r moment ws raw known) =
    framed-Mirrors out moment ws raw l t (Runs-Mirrors out l t r) known
Runs-Mirrors out live s (closed {live = l} {s = t} r ws known) =
    closed-Mirrors ws l t (Runs-Mirrors out l t r) known
Runs-Mirrors out live s (elsewhere {live = l} {s = t} r w) = Runs-Mirrors out l t r

sent_to_live : (live : List WsData) (s : Hub) → Mirrors live s → fan_out_presence s ≡ live
unfolding fan_out_presence
sent_to_live [] s (c, u, o) = rw o refl
sent_to_live (x ∷ xs) s (c, u, o) = rw o u

-- In every run of the only server in which no hash of Redis expires, whatever frames the sockets
-- send: a user is online exactly while one of the user's sockets is open, and an event of the
-- presence is sent to the open sockets and no other.
pub presence_of_live :
    (out : Outside) (live : List WsData) (s : Hub) (user : ℕ)
    → Runs out live s
    → (is_online user s.presence ≡ any (λ ws. ws.user_id == user) live)
      × (fan_out_presence s ≡ live)
presence_of_live out live s user r =
    let m = Runs-Mirrors out live s r in (rw (m.0) (any-user user live), sent_to_live live s m)
