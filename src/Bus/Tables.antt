-- ===== src/Bus/Tables.antt =====
-- The subscriptions to the channels of redis-message-bus.ts, and what its changes do to lookups.
use Prim.Native.String.{String}
use text.Mathlib.Text.{◌==◌ as str_eq}
use text.Mathlib.TextEquality.{eq_iff}
use backend_java_spring_boot.Prelude.{
  ℕ, ◌≡◌, refl, Bool, false, ◌&&◌, none, map_some, List, [], ◌∷◌, any, find?, remove, update,
  filter, map, ◌==◌, if◌then◌else◌, arith,
}
use backend_java_spring_boot.Bus.{Channel}

-- A subscription that has not ended.
pub record Subscription : Type 0 where
  pub channel : String
  pub handler : ℕ

abbrev pub is_of : String → ℕ → Subscription → Bool
is_of channel handler s = str_eq s.channel channel && (s.handler == handler)

-- The handlers that are subscribed to a channel, the latest first.
abbrev pub subscribed_to : String → List Subscription → List ℕ
subscribed_to channel subs = map (λ s. s.handler) (filter (λ s. str_eq s.channel channel) subs)

pub entry-update :
    (name channel : String) (f : Channel → Channel) (cs : List Channel)
    → ((c : Channel) → (f c).name ≡ c.name)
    → find? (λ c. str_eq c.name name) (update (λ c. str_eq c.name channel) f cs) ≡ (
        if str_eq channel name
        then map_some f (find? (λ c. str_eq c.name name) cs)
        else find? (λ c. str_eq c.name name) cs)
entry-update name channel f [] keeps = ground arith
entry-update name channel f (x ∷ xs) keeps = ground (
  arith,
  entry-update name channel f xs keeps,
  keeps x,
  eq_iff x.name name,
  eq_iff x.name channel,
  eq_iff channel name,
)

pub entry-remove :
    (name channel : String) (cs : List Channel)
    → find? (λ c. str_eq c.name name) (remove (λ c. str_eq c.name channel) cs)
      ≡ (if str_eq channel name then none else find? (λ c. str_eq c.name name) cs)
entry-remove name channel [] = ground arith
entry-remove name channel (x ∷ xs) = ground (
  arith,
  entry-remove name channel xs,
  eq_iff x.name name,
  eq_iff x.name channel,
  eq_iff channel name,
)

pub listens-remove :
    (name channel : String) (rs : List String)
    → any (λ r. str_eq r name) (remove (λ r. str_eq r channel) rs)
      ≡ (if str_eq channel name then false else any (λ r. str_eq r name) rs)
listens-remove name channel [] = ground arith
listens-remove name channel (x ∷ xs) =
    ground
      (arith, listens-remove name channel xs, eq_iff x name, eq_iff x channel, eq_iff channel name)

pub subscribed_to-remove :
    (name channel : String) (handler : ℕ) (subs : List Subscription)
    → subscribed_to name (remove (is_of channel handler) subs) ≡ (
        if str_eq channel name
        then remove (λ h. h == handler) (subscribed_to name subs)
        else subscribed_to name subs)
subscribed_to-remove name channel handler [] = ground arith
subscribed_to-remove name channel handler (x ∷ xs) = ground (
  arith,
  subscribed_to-remove name channel handler xs,
  eq_iff x.channel name,
  eq_iff x.channel channel,
  eq_iff channel name,
)

pub any-subscribed_to :
    (channel : String) (handler : ℕ) (subs : List Subscription)
    → any (λ h. h == handler) (subscribed_to channel subs) ≡ any (is_of channel handler) subs
any-subscribed_to channel handler [] = refl
any-subscribed_to channel handler (x ∷ xs) = ground (arith, any-subscribed_to channel handler xs)
