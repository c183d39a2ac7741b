-- ===== src/Ws/Socket.antt =====
-- envelope.ts, and what a handler of a frame works on.
use Prim.Native.String.{String}
use backend_java_spring_boot.Prelude.{ℕ, ⊤, Bool, Option, none, some, List, ◌∷◌}
use backend_java_spring_boot.Domain.{Error, validation, Result, ok, err}
use backend_java_spring_boot.World.{World, Action}
use backend_java_spring_boot.Presence.{Presence}
use backend_java_spring_boot.Json.{
  Json, num, other_number, Zod, lookup, object, string, optional, ◌>>=◌ as ◌and_then◌,
}
use backend_java_spring_boot.Ws.Registry.{Registry}

-- `ClientEnvelope`, whose `id` and `ts` nothing reads
pub record ClientEnvelope : Type 0 where
  pub kind : String
  pub ref_id : Option String
  pub payload : Option Json

-- `z.number()`
abbrev pub number : Option Json → Option ⊤
number (some (num n)) = some tt
number (some other_number) = some tt
number _ = none

-- `ClientEnvelopeSchema`
unfoldable pub envelope_schema : Json → Option ClientEnvelope
envelope_schema j = object j and_then λ o. string (lookup "type" o) and_then λ kind.
    optional string (lookup "id" o) and_then λ _.
    optional string (lookup "refId" o) and_then λ ref_id.
    optional number (lookup "ts" o) and_then λ _.
    some (record { kind = kind; ref_id = ref_id; payload = lookup "payload" o })

-- `parseEnvelope`; `raw` is what `JSON.parse` makes of the frame, and `none` where it raises.
unfoldable pub parse_envelope : Option Json → Option ClientEnvelope
unfolding envelope_schema
parse_envelope raw = raw and_then envelope_schema

-- The payload of an acknowledgement
pub data AckPayload : Type 0 where
  ack_sent : (id created_at : ℕ) → AckPayload
  ack_edited : (id : ℕ) (edited_at : Option ℕ) → AckPayload
  ack_deleted : (message_id : ℕ) → AckPayload
  ack_read : (room_id message_id : ℕ) → AckPayload
  ack_subscribed ack_unsubscribed : List ℕ → AckPayload
  ack_time : ℕ → AckPayload
  ack_empty : AckPayload

-- What is sent to the socket; `ref_id` is left out of the text where there is none.
pub data Frame : Type 0 where
  ack : (ref_id : Option String) (payload : AckPayload) (ts : ℕ) → Frame
  pong : (ref_id : Option String) (ts : ℕ) → Frame
  error_frame : (ref_id : Option String) (code message : String) (ts : ℕ) → Frame

-- `ws.data`
pub record WsData : Type 0 where
  pub user_id : ℕ
  pub conn_id : ℕ

-- The state around a socket; `sent` is what it was sent in return for its own frames, the latest
-- first.
pub record Hub : Type 0 where
  pub world : World
  pub presence : Presence
  pub registry : Registry
  -- the sockets in `userConns`, and whether `presenceUnsub` is set
  pub user_conns : List WsData
  pub presence_unsub : Bool
  pub sent : List Frame

abbrev pub Ws : Type 0 → Type 0
Ws A = Hub → Result A × Hub

-- What follows a call, on how the call ended.
abbrev pub go_on : {A B : Type 0} → Result A × Hub → (A → Ws B) → Result B × Hub
go_on (ok a, s) f = f a s
go_on (err e, s) f = (err e, s)

infixl 5 ◌>>=◌ ◌>>◌
abbrev pub ◌>>=◌ : {A B : Type 0} → Ws A → (A → Ws B) → Ws B
◌>>=◌ m f s = go_on (m s) f

abbrev pub ◌>>◌ : {A B : Type 0} → Ws A → Ws B → Ws B
m >> k = m >>= λ _. k

abbrev pub change : (Hub → Hub) → Ws ⊤
change f s = (ok tt, f s)

-- `ws.send`
abbrev pub send : Frame → Ws ⊤
send frame = change (λ s. record s { sent = frame ∷ s.sent })

-- A use case, on the tables.
abbrev pub call : {A : Type 0} → Action A → Ws A
call m s = ((m s.world).0, record s { world = (m s.world).1 })

abbrev pub or_refuse : {A : Type 0} → Option A → Error → Ws A
or_refuse none e s = (err e, s)
or_refuse (some a) e s = (ok a, s)

-- `validate(schema, envelope.payload)`; every schema refuses `undefined`.
abbrev pub validate : {A : Type 0} → Zod → String → (Json → Option A) → Option Json → Ws A
validate zod name schema payload =
    or_refuse (payload and_then schema) (validation (zod.issues name payload))
