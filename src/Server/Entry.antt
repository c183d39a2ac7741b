-- ===== src/Server/Entry.antt =====
-- From `POST /api/v1/ws/ticket` to the upgrade of `GET /ws`.
use Prim.Native.String.{String}
use backend_java_spring_boot.Prelude.{
  ℕ, ◌+◌, ◌*◌, ◌<◌, ◌≤◌, ◌≡◌, refl, true, Option, none, some, List,
}
use backend_java_spring_boot.Tickets.{Ticket, issue, ticket_admits_once, ticket_expires}
use backend_java_spring_boot.Tickets
use backend_java_spring_boot.Web.{Request, param, Site}
use backend_java_spring_boot.Web.Middlewares.{truthy}
use backend_java_spring_boot.Controllers.{Outside, Settings, Moment}
use backend_java_spring_boot.Ws.Gateway.{upgraded, denied, admit}
use backend_java_spring_boot.Server.{serve, is_socket_path}

-- The site with the tickets that Redis holds.
abbrev pub holding : List Ticket → Site → Site
holding tickets site = record site { tickets = tickets }

module _ (out : Outside) (set : Settings) where
  -- A request for `/ws` that carries the ticket
  abbrev pub Carries : Request → String → ℕ → Type 0
  Carries req raw ticket = (truthy (param "ticket" req) ≡ some raw) × (out.shown raw ≡ some ticket)

  serve-upgrade :
      (moment : Moment) (down : Option String) (req : Request) (site : Site) (raw : String)
      (ticket : ℕ)
      → is_socket_path out set moment req.path ≡ true
      → Carries req raw ticket
      → serve out set moment down true none req site ≡ (
        admit true moment.id "Invalid or expired ticket"
            (Tickets.consume moment.redis_now ticket site.tickets).0,
        holding (Tickets.consume moment.redis_now ticket site.tickets).1 site,
      )
  unfolding serve
  serve-upgrade moment down req site raw ticket path (given, shown) =
      rw path (rw given (rw shown refl))

  -- Where the upgrade of connections succeeds, and whatever tickets were issued before: a request
  -- for `/ws` with a ticket that was issued for a user, made within the lifetime of the setting, opens a socket for that user, and a second request with the same ticket, at any time, is
  -- answered with 401 and changes nothing; so is a first one that is made when that lifetime is
  -- over.
  pub ticket_opens_once :
      (now ticket user : ℕ) (site : Site) (tickets : List Ticket)
      → issue now set.ws_ticket_ttl_sec ticket user site.tickets ≡ some (ticket, tickets)
      → (first again late : Moment) (down : Option String) (req : Request) (raw : String)
      → is_socket_path out set first req.path ≡ true
      → Carries req raw ticket
      → first.redis_now ≤ now + set.ws_ticket_ttl_sec * 1000
      → now + set.ws_ticket_ttl_sec * 1000 < late.redis_now
      → let ready = holding tickets site in
        let (reply, after) = serve out set first down true none req ready in
        (reply ≡ upgraded user first.id)
        × (serve out set again down true none req after
            ≡ (denied "Invalid or expired ticket", after))
        × (serve out set late down true none req ready
            ≡ (denied "Invalid or expired ticket", ready))
  ticket_opens_once now ticket user site tickets h first again late down req raw path carries early
        over =
      let ready = holding tickets site in
      let (opens, refused) =
        ticket_admits_once now set.ws_ticket_ttl_sec ticket user site.tickets tickets h
          first.redis_now again.redis_now early in
      let expired =
        ticket_expires now set.ws_ticket_ttl_sec ticket user site.tickets tickets h late.redis_now
          over in
      let left = (Tickets.consume first.redis_now ticket tickets).1 in
      rw (serve-upgrade first down req ready raw ticket path carries) (
        rw opens refl,
        rw (serve-upgrade again down req (holding left site) raw ticket path carries)
            (rw refused refl),
        rw (serve-upgrade late down req ready raw ticket path carries) (rw expired refl),
      )
