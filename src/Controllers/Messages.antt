-- ===== src/Controllers/Messages.antt =====
-- messages-controller.ts
use Prim.Native.String.{String}
use backend_java_spring_boot.Storage.{head_object}
use backend_java_spring_boot.Prelude.{ℕ, Option, none, some, List}
use backend_java_spring_boot.Domain.{MessageDto, fault}
use backend_java_spring_boot.Json.Schemas.{
  send_message_schema, edit_message_schema, list_messages_query_schema,
}
use backend_java_spring_boot.Messages.UseCases.{
  send_message, edit_message, delete_message, list_messages,
}
use backend_java_spring_boot.Json.{null}
use backend_java_spring_boot.Http.{respond, no_body, messages_body, message_body}
use backend_java_spring_boot.Web.{
  param, Web, pure, raise, call, json_body, validate, current_user, ◌>>=◌, ◌>>◌,
}
use backend_java_spring_boot.Web.Compose.{RouteHandler}
use backend_java_spring_boot.Web.Middlewares.{truthy}
use backend_java_spring_boot.Controllers.{Outside, Moment, path_id}

module _ (out : Outside) (moment : Moment) where
  -- `ListMessages.execute` with the text of a cursor: the query raises for one that is no UUID,
  -- after the check of the membership.
  abbrev pub list_before : (room user : ℕ) → Option (Option ℕ) → ℕ → Web (List MessageDto)
  list_before room user none limit = call (list_messages room user none limit) >>= λ _. raise fault
  list_before room user (some before) limit = call (list_messages room user before limit)

  -- An empty cursor is none.
  abbrev pub cursor_of : Option String → Option (Option ℕ)
  cursor_of none = some none
  cursor_of (some s) = elim (out.sql_uuid s) [ some id ↦ some (some id) | none ↦ none ]

  unfoldable pub list_by_room : RouteHandler
  list_by_room req = do
    query ←
        validate out.zod "ListMessagesQuerySchema"
          (λ _. list_messages_query_schema out.zod (param "before" req) (param "limit" req)) null
    room ← path_id out "rooms" req
    user ← current_user
    messages ← list_before room user (cursor_of (truthy query.before)) query.limit
    pure (respond 200 (messages_body messages))

  unfoldable pub send_to_room : RouteHandler
  send_to_room req = do
    j ← json_body req
    body ← validate out.zod "SendMessageSchema" (send_message_schema out.zod) j
    room ← path_id out "rooms" req
    user ← current_user
    message ← call (
        send_message (head_object out.aws out.storage) moment.clocks.now moment.id (record {
          room_id = room;
          sender_id = user;
          body = body.body;
          attachment_key = body.attachment_key;
          client_message_id = body.client_message_id;
          ref_id = none;
        }))
    pure (respond 201 (message_body message))

  unfoldable pub edit : RouteHandler
  edit req = do
    j ← json_body req
    body ← validate out.zod "EditMessageSchema" (edit_message_schema out.zod) j
    user ← current_user
    id ← path_id out "messages" req
    message ← call (edit_message moment.clocks.now user id body)
    pure (respond 200 (message_body message))

  unfoldable pub delete : RouteHandler
  delete req = do
    user ← current_user
    id ← path_id out "messages" req
    call (delete_message moment.clocks.db_now user id)
    pure (respond 204 no_body)
