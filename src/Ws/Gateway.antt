-- ===== src/Ws/Gateway.antt =====
-- gateway.ts, and what its handlers call of connection-registry.ts.
use Prim.Native.String.{String}
use backend_java_spring_boot.Prelude.{
  ℕ, Bool, true, false, not, ◌&&◌, Option, none, some, List, [], ◌∷◌, any, remove, ◌==◌,
  if◌then◌else◌,
}
use backend_java_spring_boot.Tickets
use backend_java_spring_boot.Http.{Response, respond, plain}
use backend_java_spring_boot.Web.{Request, param, Site}
use backend_java_spring_boot.Web.Middlewares.{truthy}
use backend_java_spring_boot.Controllers.{Outside}
use backend_java_spring_boot.Presence.{mark_user_online, mark_user_offline}
use backend_java_spring_boot.Ws.Registry.{leave_rooms}
use backend_java_spring_boot.Ws.Socket.{WsData, Hub}

-- What becomes of a request: a response, or a socket with its `WsData`.
pub data Reply : Type 0 where
  answered : Response → Reply
  upgraded : (user conn : ℕ) → Reply
  -- the handler raised
  raised : Reply

abbrev pub denied : String → Reply
denied message = answered (respond 401 (plain message))

-- `this.ticketStore.consume`, of the ticket that a text is, where it is one
abbrev pub consume_ticket : (now : ℕ) → Option ℕ → Site → Option ℕ × Site
consume_ticket now none site = (none, site)
consume_ticket now (some ticket) site = (
  (Tickets.consume now ticket site.tickets).0,
  record site { tickets = (Tickets.consume now ticket site.tickets).1 },
)

-- `server.upgrade`, which `accepts` or not
abbrev pub connect : (accepts : Bool) (user conn : ℕ) → Reply
connect accepts user conn =
    if accepts
    then upgraded user conn
    else answered (respond 400 (plain "WebSocket upgrade failed"))

abbrev pub admit : (accepts : Bool) (conn : ℕ) → (otherwise : String) → Option ℕ → Reply
admit accepts conn otherwise none = denied otherwise
admit accepts conn otherwise (some user) = connect accepts user conn

-- The part without a ticket
abbrev pub with_token : Outside → (accepts : Bool) (conn : ℕ) → Option String → Reply
with_token out accepts conn none = denied "Missing token or ticket"
with_token out accepts conn (some token) =
    admit accepts conn "Invalid or expired token" (out.verify_access token)

abbrev pub with_ticket :
    Outside → (accepts : Bool) (conn now : ℕ) → Request → Option String → Site → Reply × Site
with_ticket out accepts conn now req none site =
    (with_token out accepts conn (truthy (param "token" req)), site)
with_ticket out accepts conn now req (some raw) site = (
  admit accepts conn "Invalid or expired ticket" (consume_ticket now (out.shown raw) site).0,
  (consume_ticket now (out.shown raw) site).1,
)

-- `WsGateway.upgrade`, with the id that the connection gets and the clock of Redis
unfoldable pub upgrade : Outside → (accepts : Bool) (conn now : ℕ) → Request → Site → Reply × Site
upgrade out accepts conn now req site =
    with_ticket out accepts conn now req (truthy (param "ticket" req)) site

-- The same socket: the sets hold one for each connection.
abbrev pub is_socket : WsData → WsData → Bool
is_socket ws other = (other.user_id == ws.user_id) && (other.conn_id == ws.conn_id)

abbrev pub is_empty : List WsData → Bool
is_empty [] = true
is_empty (ws ∷ rest) = false

-- `ConnectionRegistry.register`, where the subscription that it starts ends before the next call
unfoldable pub register : WsData → Hub → Hub
register ws s = record s {
  user_conns = if any (is_socket ws) s.user_conns then s.user_conns else ws ∷ s.user_conns;
  presence_unsub = true;
}

-- `ConnectionRegistry.unregister`
unfoldable pub unregister : WsData → Hub → Hub
unregister ws s =
    let left = remove (is_socket ws) s.user_conns in
    record s {
      registry = leave_rooms ws.conn_id s.registry;
      user_conns = left;
      presence_unsub = s.presence_unsub && not (is_empty left);
    }

-- `open` of the handlers
unfoldable pub open_socket : WsData → Hub → Hub
unfolding register
open_socket ws s = record (register ws s) {
  presence = mark_user_online ws.user_id ws.conn_id s.presence;
}

-- `close` of the handlers
unfoldable pub close_socket : WsData → Hub → Hub
unfolding unregister
close_socket ws s = record (unregister ws s) {
  presence = mark_user_offline ws.user_id ws.conn_id s.presence;
}

-- `fanOutPresence`: who is sent an event of `presence:global`
unfoldable pub fan_out_presence : Hub → List WsData
fan_out_presence s = if s.presence_unsub then s.user_conns else []
