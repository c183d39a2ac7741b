-- ===== src/Ws/Tests.antt =====
-- Concrete runs over the registry of the sockets.
use backend_java_spring_boot.Prelude.{false, ◌≤◌, ◌≡◌, refl, ◌⊎◌, true, Option, none, some, [], ◌∷◌}
use backend_java_spring_boot.Domain.{member}
use backend_java_spring_boot.World.{World}
use backend_java_spring_boot.Ws.Registry.{
  Registry, deliver, subscribe_all, subscribe_if_member, subscribe_room, subscribed_on_bus,
  unsubscribe_room,
}
use backend_java_spring_boot.Ws.Synced.{at_seat, handlers, refs}
use backend_java_spring_boot.Ws.Delivery.{
  copies, no_sockets, Reached, start, subscribed, Reached-IsSynced, delivered_once,
}
use backend_java_spring_boot.Presence.{is_online}
use backend_java_spring_boot.Json.{Json, obj, end, field, str}
use backend_java_spring_boot.Controllers.Samples.{outside, moment}
use backend_java_spring_boot.Ws.Socket.{WsData, Hub}
use backend_java_spring_boot.Ws.Gateway.{open_socket, fan_out_presence}
use backend_java_spring_boot.Ws.Answers.{AnsweredOnce, is_passed_over, ref_in, dispatch-answers}
use backend_java_spring_boot.Ws.Router.{dispatch}
use backend_java_spring_boot.Ws.Socket.{parse_envelope}
use backend_java_spring_boot.Ws.Live as Live
use backend_java_spring_boot.Ws.Live.{Runs, presence_of_live}
use backend_java_spring_boot.Ws.Races.{overlapping, overlapping_twice, stranger_cuts_off}

-- The user 1 is in the room 7.
abbrev site : World
site = record {
  users = [];
  refresh_tokens = [];
  email_tokens = [];
  rooms = [];
  room_members =
      record {
        room_id = 7;
        user_id = 1;
        role = member;
        joined_at = 1;
        last_read_message_id = none;
        muted_until = none;
      }
      ∷ [];
  messages = [];
  published = [];
  mails = [];
}

-- The socket 100 of the user subscribed to the rooms 7 and 8.
abbrev one_socket : Registry
one_socket = subscribe_all site 1 100 (7 ∷ 8 ∷ []) no_sockets

one_socket-Reached : Reached one_socket
one_socket-Reached = subscribed start site 1 100 (7 ∷ 8 ∷ [])

delivered_once_example :
    (copies 100 (deliver 7 one_socket) ≡ at_seat 7 100 one_socket.room_local_subs)
    × (at_seat 7 100 one_socket.room_local_subs ≤ 1)
delivered_once_example = delivered_once one_socket 7 100 one_socket-Reached

stranger_cuts_off_example :
    (at_seat 7 100 (unsubscribe_room 200 7 one_socket).room_local_subs ≡ 1)
    × (copies 100 (deliver 7 (unsubscribe_room 200 7 one_socket)) ≡ 0)
unfolding subscribe_all subscribe_if_member subscribe_room subscribed_on_bus
stranger_cuts_off_example =
    stranger_cuts_off one_socket 7 100 200 (Reached-IsSynced one_socket one_socket-Reached) refl
      refl refl

overlapping_twice_example :
    (handlers 7 (overlapping 100 200 7 no_sockets).bus_handlers ≡ 2)
    × (refs 7 (overlapping 100 200 7 no_sockets).room_bus_unsub ≡ 1)
    × (copies 100 (deliver 7 (overlapping 100 200 7 no_sockets)) ≡ 2)
overlapping_twice_example =
    overlapping_twice no_sockets 7 100 200 (Reached-IsSynced no_sockets start) refl

-- A socket of the user 1
abbrev first : WsData
first = record { user_id = 1; conn_id = 10 }

-- The socket is open.
abbrev greeting : Hub
greeting = open_socket first (Live.fresh site)

abbrev typing : Option Json
typing = some (obj (field "type" (str "chat.typing") (field "refId" (str "r") end)))

dispatch-answers_example :
    ((is_passed_over outside moment first (parse_envelope typing) greeting.world ≡ false)
      × AnsweredOnce
          (ref_in outside moment first (parse_envelope typing))
          greeting
          (dispatch outside moment first typing greeting))
    ⊎ ((is_passed_over outside moment first (parse_envelope typing) greeting.world ≡ true)
        × (dispatch outside moment first typing greeting ≡ greeting))
dispatch-answers_example = dispatch-answers outside moment first typing greeting

typed : Runs outside (first ∷ []) (dispatch outside moment first typing greeting)
typed = Live.framed (Live.opened (Live.start site) first refl) moment first typing refl

presence_of_live_example :
    (is_online 1 (dispatch outside moment first typing greeting).presence ≡ true)
    × (fan_out_presence (dispatch outside moment first typing greeting) ≡ first ∷ [])
presence_of_live_example =
    presence_of_live outside (first ∷ []) (dispatch outside moment first typing greeting) 1 typed
