-- ===== src/Server/Privacy.antt =====
-- `GET /api/v1/rooms/:id/messages` by somebody who is not in the room, from the request to the
-- response.
use Prim.Native.String.{String}
use text.Mathlib.Text.{◌==◌ as str_eq}
use backend_java_spring_boot.Prelude.{ℕ, ◌≡◌, refl, ap, Bool, true, false, Option, none, some}
use backend_java_spring_boot.Domain.{err, forbidden}
use backend_java_spring_boot.Store.Rooms
use backend_java_spring_boot.Json.Schemas.{PageQuery, list_messages_query_schema}
use backend_java_spring_boot.Messages.UseCases as UseCases
use backend_java_spring_boot.Http.{Response, respond, messages_body, error_mapper, mapped_error}
use backend_java_spring_boot.Web.{Request, proceed, pure, Turn, Site, param}
use backend_java_spring_boot.Web.Middlewares.{truthy}
use backend_java_spring_boot.Controllers.{Outside, Settings, Moment, parse_uuid, part_after}
use backend_java_spring_boot.Controllers.Messages.{list_before, cursor_of, list_by_room}
use backend_java_spring_boot.Ws.Gateway.{answered}
use backend_java_spring_boot.Server.{list_messages, serve, route, base_auth}
use backend_java_spring_boot.Web.Compose.{compose}
use backend_java_spring_boot.Server.Total.{dressed}
use backend_java_spring_boot.Server.Guards.{caller, counted, at_handler, dressed-status}
use backend_java_spring_boot.Server.Protected.{protected_admitted}

module _ (out : Outside) (moment : Moment) where
  list_before-outsider :
      (room user : ℕ) (before : Option (Option ℕ)) (limit : ℕ) (t : Turn)
      → Rooms.get_member room user t.site.world ≡ none
      → list_before out moment room user before limit t
        ≡ (err (forbidden "Not a member of this room"), t)
  unfolding UseCases.list_messages
  list_before-outsider room user none limit t outside = rw outside refl
  list_before-outsider room user (some before) limit t outside = rw outside refl

  list_by_room-outsider :
      (req : Request) (t : Turn) (room user : ℕ) (q : PageQuery)
      → list_messages_query_schema out.zod (param "before" req) (param "limit" req) ≡ some q
      → parse_uuid out (part_after "rooms" req.url) ≡ some room
      → Rooms.get_member room user t.site.world ≡ none
      → list_by_room out moment req (record t { user_id = some user })
        ≡ (err (forbidden "Not a member of this room"), record t { user_id = some user })
  unfolding list_by_room
  list_by_room-outsider req t room user q valid named outside = rw valid (
      rw named (
        ap (λ r. proceed r (λ messages. pure (respond 200 (messages_body messages))))
          (list_before-outsider room user (cursor_of out moment (truthy q.before)) q.limit
            (record t { user_id = some user }) outside)))

module _ (out : Outside) (set : Settings) (moment : Moment) where
  list_messages-route :
      (down : Option String)
      → route out set moment down list_messages
        ≡ compose (base_auth out set moment) (list_by_room out moment)
  unfolding route
  list_messages-route down = refl

  -- A valid request for the messages of a room, no preflight and with an accepted token of
  -- somebody who is not in the room and has some of the limit left, is answered with 403; of the
  -- state only the count of the calls changes.
  pub outsider_reads_nothing :
      (down : Option String) (accepts : Bool) (req : Request) (site : Site) (room user : ℕ)
      (q : PageQuery)
      → str_eq req.method "OPTIONS" ≡ false
      → caller out req ≡ some user
      → (counted out set moment user req site).0.allowed ≡ true
      → list_messages_query_schema out.zod (param "before" req) (param "limit" req) ≡ some q
      → parse_uuid out (part_after "rooms" req.url) ≡ some room
      → Rooms.get_member room user site.world ≡ none
      → (res : Response) × (serve out set moment down accepts (some list_messages) req site
          ≡ (answered res, record site { hits = (counted out set moment user req site).1 }))
        × (res.status ≡ 403)
  unfolding error_mapper mapped_error
  outsider_reads_nothing down accepts req site room user q other known allowed valid named outside =
      let t = at_handler out set moment user req site in
      let refusal = mapped_error (forbidden "Not a member of this room") in
      (
        dressed set req t.request_id refusal,
        rw
            (protected_admitted out set moment down accepts list_messages (list_by_room out moment)
              req site user (list_messages-route down) other known allowed)
            (rw (list_by_room-outsider out moment req t room user q valid named outside) refl),
        dressed-status out set moment req t.request_id refusal,
      )
