-- ===== src/Controllers/Tests.antt =====
-- Concrete requests of the controllers.
use backend_java_spring_boot.Prelude.{◌≤◌, ◌≡◌, refl, [], some, length}
use backend_java_spring_boot.Domain.{ok}
use backend_java_spring_boot.Http.{respond, messages_body}
use backend_java_spring_boot.Web.{Turn}
use backend_java_spring_boot.Store.Messages.{list_by_room}
use backend_java_spring_boot.Json.Schemas.{list_messages_query_schema}
use backend_java_spring_boot.Messages.UseCases.{list_messages}
use backend_java_spring_boot.Controllers.Messages
use backend_java_spring_boot.Controllers.Pages.{pages-bounded}
use backend_java_spring_boot.Controllers.Samples.{outside, settings, moment, site, get}

abbrev turn : Turn
turn = record { site = site; request_id = "r"; user_id = some 1; cursor = 0 }

listed :
    (Messages.list_by_room outside moment (get [] []) turn).0 ≡ ok (respond 200 (messages_body []))
unfolding Messages.list_by_room list_messages list_messages_query_schema list_by_room
listed = refl

pages-bounded_example :
    length
      (pages-bounded outside settings moment
        (get [] [])
        turn
        (respond 200 (messages_body []))
        listed).0
    ≤ 100
pages-bounded_example =
    (pages-bounded outside settings moment (get [] []) turn (respond 200 (messages_body []))
      listed).2
