-- ===== src/Controllers/Attachments.antt =====
-- attachments-controller.ts and ws-controller.ts, with src/application/use-cases/attachments
use Prim.Native.Char.{code}
use Prim.Native.String
use Prim.Native.String.{String}
use backend_java_spring_boot.Prelude.{ℕ, Option, none, some, List, ◌==◌, if◌then◌else◌}
use backend_java_spring_boot.Domain.{not_found, fault, ok}
use backend_java_spring_boot.Json.Schemas.{presign_attachment_schema}
use backend_java_spring_boot.Storage.{presign_put, head_object, public_url}
use backend_java_spring_boot.Tickets.{Ticket, issue}
use backend_java_spring_boot.Http.{
  Response, Body, respond, failure, ticket_body, presigned_body, public_url_body,
}
use backend_java_spring_boot.Web.{param, Web, pure, raise, json_body, validate, current_user, ◌>>=◌}
use backend_java_spring_boot.Web.Compose.{RouteHandler}
use backend_java_spring_boot.Web.Middlewares.{truthy, or_text}
use backend_java_spring_boot.Controllers.{Outside, Settings, Moment}

abbrev pub before_slash : String → String
before_slash String.[] = ""
before_slash (String.◌∷◌ c s) = if code c == 47 then "" else String.◌∷◌ c (before_slash s)

-- `s.split("/")[1]`
abbrev pub second_part : String → Option String
second_part String.[] = none
second_part (String.◌∷◌ c s) = if code c == 47 then some (before_slash s) else second_part s

abbrev pub presign_ttl_sec : ℕ
presign_ttl_sec = 300

module _ (out : Outside) (set : Settings) (moment : Moment) where
  abbrev pub upload_key : String → String
  upload_key content_type = String.◌++◌ "uploads/" (
      String.◌++◌ (out.show moment.id) (String.◌++◌ "." (or_text (second_part content_type) "bin")))

  -- `PresignAttachment.execute`
  unfoldable pub presign_attachment : (content_type : String) (size_bytes : ℕ) → Body
  presign_attachment content_type size_bytes =
      let key = upload_key content_type in
      let presigned =
        presign_put out.aws out.storage moment.clocks.now key content_type size_bytes
          presign_ttl_sec in
      presigned_body presigned.url presigned.key presigned.expires_at
        (public_url out.aws out.storage key)

  unfoldable pub presign : RouteHandler
  unfolding presign_attachment
  presign req = do
    j ← json_body req
    body ← validate out.zod "PresignAttachmentSchema" (presign_attachment_schema out.zod) j
    pure (respond 201 (presign_attachment body.content_type body.size_bytes))

  -- `ConfirmAttachment.execute`
  unfoldable pub confirm_attachment : String → Web Response
  confirm_attachment key =
      if head_object out.aws out.storage key
      then pure (respond 200 (public_url_body (public_url out.aws out.storage key)))
      else raise (not_found "Attachment not found or not yet uploaded")

  abbrev pub confirm_key : Option String → Web Response
  confirm_key none = pure (failure 400 "Missing key")
  confirm_key (some key) = confirm_attachment key

  unfoldable pub confirm : RouteHandler
  unfolding confirm_attachment
  confirm req = confirm_key (truthy (param "key" req))

  -- The answer with the ticket, where Redis took it
  abbrev pub respond_ticket : Option (ℕ × List Ticket) → Web Response
  respond_ticket none = raise fault
  respond_ticket (some (ticket, tickets)) = λ t. (
    ok (respond 200 (ticket_body ticket)),
    record t { site = record t.site { tickets = tickets } },
  )

  unfoldable pub issue_ticket : RouteHandler
  unfolding issue
  issue_ticket req = do
    user ← current_user
    λ t.
        respond_ticket
          (issue moment.redis_now set.ws_ticket_ttl_sec moment.ticket user t.site.tickets) t
