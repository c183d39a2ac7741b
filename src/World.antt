-- ===== src/World.antt =====
-- The state that the use cases work on, and the calls that change it: the tables of migrations/,
-- what was published on the bus and what was mailed, both with the latest first. A statement
-- commits by itself, so what was written before an exception stays written.
use Prim.Native.String.{String}
use backend_java_spring_boot.Prelude.{
  ℕ, ⊤, ◌≡◌, Bool, true, false, Option, none, some, List, ◌∷◌, if◌then◌else◌,
}
use backend_java_spring_boot.Domain.{
  Error, fault, Result, ok, err, User, RefreshToken, EmailToken, Room, RoomMember, Message,
  MessageDto,
}

-- `BusEvent` of src/application/dtos/message-dtos.ts
pub data BusEvent : Type 0 where
  message_created : (message : MessageDto) (ref_id : Option String) (origin_user_id : ℕ) → BusEvent
  message_edited : (message : MessageDto) → BusEvent
  message_deleted : (message_id room_id : ℕ) → BusEvent
  message_read : (room_id user_id message_id : ℕ) → BusEvent
  user_typing : (room_id user_id : ℕ) → BusEvent

pub data Mail : Type 0 where
  verification password_reset : (to link : String) → Mail

pub record World : Type 0 where
  pub users : List User
  pub refresh_tokens : List RefreshToken
  pub email_tokens : List EmailToken
  pub rooms : List Room
  pub room_members : List RoomMember
  pub messages : List Message
  -- the event and the room of its channel, `room:${roomId}`
  pub published : List (ℕ × BusEvent)
  pub mails : List Mail

abbrev pub Action : Type 0 → Type 0
Action A = World → Result A × World

module _ {A : Type 0} where
  abbrev pub pure : A → Action A
  pure a w = (ok a, w)

  abbrev pub raise : Error → Action A
  raise e w = (err e, w)

  abbrev pub gets : (World → A) → Action A
  gets f w = (ok (f w), w)

  abbrev pub or_raise : Option A → Error → Action A
  or_raise none e = raise e
  or_raise (some a) _ = pure a

-- `mapRow(row!)`: reading a field of the row that did not come back raises.
abbrev pub row_or_fault : {A : Type 0} → Option A → World → Result A × World
row_or_fault none w = (err fault, w)
row_or_fault (some a) w = (ok a, w)

-- What follows a call, on how the call ended.
abbrev pub continue_with : {A B : Type 0} → Result A × World → (A → Action B) → Result B × World
continue_with (ok a, w) f = f a w
continue_with (err e, w) f = (err e, w)

infixl 5 ◌>>=◌ ◌>>◌
abbrev pub ◌>>=◌ : {A B : Type 0} → Action A → (A → Action B) → Action B
◌>>=◌ m f w = continue_with (m w) f

abbrev pub ◌>>◌ : {A B : Type 0} → Action A → Action B → Action B
m >> k = m >>= λ _. k

abbrev pub raise_if : Bool → Error → Action ⊤
raise_if c e w = (if c then err e else ok tt, w)

abbrev pub modify : (World → World) → Action ⊤
modify f w = (ok tt, f w)

abbrev pub publish : ℕ → BusEvent → Action ⊤
publish room event = modify (λ w. record w { published = (room, event) ∷ w.published })

-- A call that does what a policy allows, and else raises and changes nothing.
abbrev pub Decides : {A : Type 0} → Bool → World → Result A × World → Result A × World → Type 0
Decides true w done r = r ≡ done
Decides false w done r = (e : Error) × (r ≡ (err e, w))

-- What a call and all that follows it keep, the sequence keeps.
pub continue-keeps {κ} :
    {A B : Type 0} (P : World → Type κ) (r : Result A × World) (f : A → Action B)
    → P r.1
    → ((a : A) (w : World) → P w → P (f a w).1)
    → P (continue_with r f).1
continue-keeps P (ok a, w) f h k = k a w h
continue-keeps P (err e, w) f h k = h
