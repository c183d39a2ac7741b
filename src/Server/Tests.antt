-- ===== src/Server/Tests.antt =====
-- Concrete requests to the server.
use backend_java_spring_boot.Prelude.{
  ◌≤◌, ◌≡◌, refl, ap, arith, List, true, false, [], ◌∷◌, none, some,
}
use backend_java_spring_boot.Limits.Sliding
use backend_java_spring_boot.Web.{Request, Site}
use backend_java_spring_boot.Controllers.{Moment}
use backend_java_spring_boot.Controllers.Samples.{outside, settings, moment, site, busy, get}
use backend_java_spring_boot.Ws.Gateway.{upgraded, denied}
use backend_java_spring_boot.Server.{
  me, list_messages, list_rooms, serve, route, reply_of, base_auth,
}
use backend_java_spring_boot.Web.Compose.{compose}
use backend_java_spring_boot.Controllers.Rooms
use backend_java_spring_boot.Server.Total.{finished}
use backend_java_spring_boot.Server.Guards.{counted, at_handler}
use backend_java_spring_boot.Server.Protected.{
  protected_refused, protected_limited, protected_admitted,
}
use backend_java_spring_boot.Json.Schemas.{PageQuery, list_messages_query_schema}
use backend_java_spring_boot.Server.Privacy.{outsider_reads_nothing}
use backend_java_spring_boot.Server.Entry.{holding, ticket_opens_once}
use backend_java_spring_boot.Server.Attempts.{Attempt, tried, login_bound}
use backend_java_spring_boot.Tickets.{Ticket, issue, ticket_for}

-- A request with the token of the user 1
abbrev signed : Request
signed = get [] (("authorization", "Bearer good") ∷ [])

abbrev from_page : Request
from_page = get [] (("origin", "https://x") ∷ [])

abbrev with_ticket : Request
with_ticket = get (("ticket", "7") ∷ []) []

protected_refused_example :
    (serve outside settings moment none true (some me) from_page site).1 ≡ site
protected_refused_example =
    ap (λ r. r.1)
      (protected_refused outside settings moment none true me from_page site refl refl refl).1

refused_when_busy : (counted outside settings moment 1 signed busy).0.allowed ≡ false
unfolding Sliding.consume
refused_when_busy = refl

protected_limited_example :
    (serve outside settings moment none true (some me) signed busy).1
    ≡ record busy { hits = (counted outside settings moment 1 signed busy).1 }
protected_limited_example =
    ap (λ r. r.1)
      (protected_limited outside settings moment none true me signed busy 1 refl refl refl
        refused_when_busy).1

allowed_when_idle : (counted outside settings moment 1 signed site).0.allowed ≡ true
unfolding Sliding.consume
allowed_when_idle = refl

rooms_route :
    route outside settings moment none list_rooms
    ≡ compose (base_auth outside settings moment) (Rooms.list outside moment)
unfolding route
rooms_route = refl

protected_admitted_example :
    serve outside settings moment none true (some list_rooms) signed site
    ≡ reply_of outside settings moment (
        finished settings signed
          (Rooms.list outside moment signed (at_handler outside settings moment 1 signed site)))
protected_admitted_example =
    protected_admitted outside settings moment none true list_rooms (Rooms.list outside moment)
      signed site 1 rooms_route refl refl allowed_when_idle

abbrev issued_tickets : List Ticket
issued_tickets = ticket_for 1000 30 7 1 ∷ []

issue_7 : issue 1000 30 7 1 site.tickets ≡ some (7, issued_tickets)
unfolding issue
issue_7 = refl

abbrev ready_site : Site
ready_site = holding issued_tickets site

-- Half a minute after `moment`
abbrev late_moment : Moment
late_moment = record moment { redis_now = 31001 }

ticket_opens_once_example :
    let after = (serve outside settings moment none true none with_ticket ready_site).1 in
    ((serve outside settings moment none true none with_ticket ready_site).0 ≡ upgraded 1 90)
    × (serve outside settings late_moment none true none with_ticket after
        ≡ (denied "Invalid or expired ticket", after))
    × (serve outside settings late_moment none true none with_ticket ready_site
        ≡ (denied "Invalid or expired ticket", ready_site))
ticket_opens_once_example =
    ticket_opens_once outside settings 1000 7 1 site issued_tickets issue_7 moment late_moment
      late_moment none with_ticket "7" refl (refl, refl) (ground arith) (ground arith)

-- Three logins in a row
abbrev hasty : List (Attempt)
hasty =
    record { tables = site.world; moment = moment; request = from_page }
    ∷ record { tables = site.world; moment = moment; request = from_page }
    ∷ record { tables = site.world; moment = late_moment; request = from_page }
    ∷ []

login_bound_example : tried outside settings none true "login:unknown" hasty site ≤ 2
login_bound_example =
    login_bound outside settings none true "login:unknown" 1000 hasty site
      (refl, (refl, (refl, tt)))
      (
        (ground arith, ground arith),
        ((ground arith, ground arith), ((ground arith, ground arith), tt)),
      )

-- A request for the messages of the room 50, which the user 1 is not in
abbrev prying : Request
prying = record signed {
  url = "https:" ∷ "" ∷ "h" ∷ "api" ∷ "v1" ∷ "rooms" ∷ "50" ∷ "messages" ∷ [];
}

abbrev default_page : PageQuery
default_page = record { before = none; limit = 50 }

prying_query : list_messages_query_schema outside.zod none none ≡ some default_page
unfolding list_messages_query_schema
prying_query = refl

allowed_to_pry : (counted outside settings moment 1 prying site).0.allowed ≡ true
unfolding Sliding.consume
allowed_to_pry = refl

outsider_reads_nothing_example :
    (serve outside settings moment none true (some list_messages) prying site).1
    ≡ record site { hits = (counted outside settings moment 1 prying site).1 }
outsider_reads_nothing_example =
    ap (λ r. r.1)
      (outsider_reads_nothing outside settings moment none true prying site 50 1 default_page refl
        refl allowed_to_pry prying_query refl refl).1
