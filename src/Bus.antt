-- ===== src/Bus.antt =====
-- redis-message-bus.ts. A handler is a number; a channel of `channelHandlers` is an entry with its
-- set of handlers; `redis` are the channels that the subscriber of Redis listens to.
use Prim.Native.String.{String}
use text.Mathlib.Text.{◌==◌ as str_eq}
use backend_java_spring_boot.Prelude.{
  ℕ, Bool, true, false, Option, none, some, List, [], ◌∷◌, any, find?, remove, update, ◌==◌,
  if◌then◌else◌,
}
pub mod Tables
pub mod Subscribers
mod Tests

pub record Channel : Type 0 where
  pub name : String
  pub handlers : List ℕ

pub record Bus : Type 0 where
  pub channels : List Channel
  pub redis : List String

-- `this.channelHandlers.get(channel)`
abbrev pub entry : String → Bus → Option Channel
entry channel bus = find? (λ c. str_eq c.name channel) bus.channels

-- `Set.add`
abbrev pub add_handler : ℕ → Channel → Channel
add_handler handler c = record c {
  handlers = if any (λ h. h == handler) c.handlers then c.handlers else handler ∷ c.handlers;
}

-- `Set.delete`
abbrev pub delete_handler : ℕ → Channel → Channel
delete_handler handler c = record c { handlers = remove (λ h. h == handler) c.handlers }

abbrev pub changed : String → (Channel → Channel) → Bus → Bus
changed channel f bus = record bus { channels = update (λ c. str_eq c.name channel) f bus.channels }

abbrev pub subscribe_at : Option Channel → String → ℕ → Bus → Bus
subscribe_at none channel handler bus = record {
  channels = record { name = channel; handlers = handler ∷ [] } ∷ bus.channels;
  redis = channel ∷ bus.redis;
}
subscribe_at (some c) channel handler bus = changed channel (add_handler handler) bus

-- `RedisMessageBus.subscribe`, where nothing else runs during its `await`
unfoldable pub subscribe : String → ℕ → Bus → Bus
subscribe channel handler bus = subscribe_at (entry channel bus) channel handler bus

abbrev pub is_nil : List ℕ → Bool
is_nil [] = true
is_nil (h ∷ hs) = false

abbrev pub closed : String → Bus → Bus
closed channel bus = record {
  channels = remove (λ c. str_eq c.name channel) bus.channels;
  redis = remove (λ r. str_eq r channel) bus.redis;
}

abbrev pub unsubscribe_at : Option Channel → String → ℕ → Bus → Bus
unsubscribe_at none channel handler bus = bus
unsubscribe_at (some c) channel handler bus =
    if is_nil (delete_handler handler c).handlers
    then closed channel bus
    else changed channel (delete_handler handler) bus

-- The function that `subscribe` answers with
unfoldable pub unsubscribe : String → ℕ → Bus → Bus
unsubscribe channel handler bus = unsubscribe_at (entry channel bus) channel handler bus

abbrev pub handlers_in : Option Channel → List ℕ
handlers_in none = []
handlers_in (some c) = c.handlers

-- The handlers that a message of the channel is given to; Redis sends one to a listener.
unfoldable pub deliver : String → Bus → List ℕ
deliver channel bus =
    if any (λ r. str_eq r channel) bus.redis then handlers_in (entry channel bus) else []
