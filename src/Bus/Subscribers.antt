-- ===== src/Bus/Subscribers.antt =====
-- The subscriptions as the abstract view of redis-message-bus.ts.
use Prim.Native.String.{String}
use text.Mathlib.Text.{◌==◌ as str_eq}
use text.Mathlib.TextEquality.{eq_iff}
use text.Mathlib.TextPositions.{eq_refl}
use mathlib.Core.Path.{subst}
use backend_java_spring_boot.Prelude.{
  ℕ, ◌≡◌, refl, sym, ap, ◌∙◌, inl, inr, true, false, not, Bool-cases, none, some, Option-cases,
  is_some, List, [], ◌∷◌, any, remove, ◌==◌,
}
use backend_java_spring_boot.Bus.{
  Channel, Bus, entry, add_handler, delete_handler, subscribe, is_nil, unsubscribe, handlers_in,
  deliver,
}
use backend_java_spring_boot.Bus.Tables.{
  Subscription, is_of, subscribed_to, entry-update, entry-remove, listens-remove,
  subscribed_to-remove, any-subscribed_to,
}

-- The buses that calls lead to which do not overlap: a new handler subscribes, or a subscribed one
-- ends its subscription.
pub data Runs : List Subscription → Bus → Type 0 where
  start : Runs [] (record { channels = []; redis = [] })
  subscribes :
      {subs : List Subscription} {bus : Bus}
      → Runs subs bus
      → (channel : String) (handler : ℕ) → any (is_of channel handler) subs ≡ false
      → Runs
          (record { channel = channel; handler = handler } ∷ subs)
          (subscribe channel handler bus)
  unsubscribes :
      {subs : List Subscription} {bus : Bus}
      → Runs subs bus
      → (channel : String) (handler : ℕ) → any (is_of channel handler) subs ≡ true
      → Runs (remove (is_of channel handler) subs) (unsubscribe channel handler bus)

-- What the bus holds of a channel, by the subscriptions to it.
abbrev Fits : List Subscription → Bus → String → Type 0
Fits subs bus name =
    (handlers_in (entry name bus) ≡ subscribed_to name subs)
    × (any (λ r. str_eq r name) bus.redis ≡ is_some (entry name bus))
    × (is_some (entry name bus) ≡ not (is_nil (subscribed_to name subs)))

no_entry :
    (subs : List Subscription) (bus : Bus) (channel : String)
    → Fits subs bus channel
    → entry channel bus ≡ none
    → [] ≡ subscribed_to channel subs
no_entry subs bus channel fits n = rw n at fits.0

at_entry :
    (subs : List Subscription) (bus : Bus) (channel : String) (c : Channel)
    → Fits subs bus channel
    → entry channel bus ≡ some c
    → (c.handlers ≡ subscribed_to channel subs) × (any (λ r. str_eq r channel) bus.redis ≡ true)
at_entry subs bus channel c fits f = (rw f at fits.0, rw f at fits.1)

subscribe-here :
    (subs : List Subscription) (bus : Bus) (channel : String) (handler : ℕ)
    → Fits subs bus channel
    → any (is_of channel handler) subs ≡ false
    → Fits
        (record { channel = channel; handler = handler } ∷ subs)
        (subscribe channel handler bus)
        channel
unfolding subscribe
subscribe-here subs bus channel handler fits new = elim (Option-cases (entry channel bus)) [
  | inl n ↦
      rw n (
        rw (eq_refl channel) (ap (λ l. handler ∷ l) (no_entry subs bus channel fits n), refl, refl))
  | inr (c, f) ↦
      let (same, listens) = at_entry subs bus channel c fits f in
      let absent : any (λ h. h == handler) c.handlers ≡ false =
        rw same (any-subscribed_to channel handler subs ∙ new) in
      rw f (
        rw (entry-update channel channel (add_handler handler) bus.channels (λ x. refl))
          (rw (eq_refl channel) (rw f (rw absent (ap (λ l. handler ∷ l) same, listens, refl)))))
]

subscribe-elsewhere :
    (subs : List Subscription) (bus : Bus) (channel name : String) (handler : ℕ)
    → Fits subs bus name
    → str_eq channel name ≡ false
    → Fits
        (record { channel = channel; handler = handler } ∷ subs)
        (subscribe channel handler bus)
        name
unfolding subscribe
subscribe-elsewhere subs bus channel name handler fits other =
    elim (Option-cases (entry channel bus)) [
      | inl n ↦ rw n (rw other fits)
      | inr (c, f) ↦ rw f (
          rw (entry-update name channel (add_handler handler) bus.channels (λ x. refl))
            (rw other fits))
    ]

is_nil-empty : (l : List ℕ) → is_nil l ≡ true → [] ≡ l
is_nil-empty [] h = refl
is_nil-empty (x ∷ xs) h = absurd (cc)

unsubscribe-here :
    (subs : List Subscription) (bus : Bus) (channel : String) (handler : ℕ)
    → Fits subs bus channel
    → any (is_of channel handler) subs ≡ true
    → Fits (remove (is_of channel handler) subs) (unsubscribe channel handler bus) channel
unfolding unsubscribe
unsubscribe-here subs bus channel handler fits there = elim (Option-cases (entry channel bus)) [
  | inl n ↦
      let nobody : any (λ h. h == handler) (subscribed_to channel subs) ≡ false =
        rw (sym (no_entry subs bus channel fits n)) refl in
      absurd (cc (nobody, any-subscribed_to channel handler subs, there))
  | inr (c, f) ↦
      let (same, listens) = at_entry subs bus channel c fits f in
      let after = subscribed_to channel (remove (is_of channel handler) subs) in
      let left : (delete_handler handler c).handlers ≡ after =
        ap (remove (λ h. h == handler)) same
        ∙ sym (rw (eq_refl channel) at (subscribed_to-remove channel channel handler subs)) in
      elim (Bool-cases (is_nil (delete_handler handler c).handlers)) [
        | inl last ↦
            let none_after : is_nil after ≡ true = rw (sym left) last in
            rw f (
              rw last (
                rw (entry-remove channel channel bus.channels) (
                  rw (listens-remove channel channel bus.redis) (
                    rw (eq_refl channel)
                      (is_nil-empty after none_after, refl, rw none_after refl)))))
        | inr more ↦
            let some_after : is_nil after ≡ false = rw (sym left) more in
            rw f (
              rw more (
                rw (entry-update channel channel (delete_handler handler) bus.channels (λ x. refl))
                  (rw (eq_refl channel) (rw f (left, listens, rw some_after refl)))))
      ]
]

unsubscribe-elsewhere :
    (subs : List Subscription) (bus : Bus) (channel name : String) (handler : ℕ)
    → Fits subs bus name
    → str_eq channel name ≡ false
    → Fits (remove (is_of channel handler) subs) (unsubscribe channel handler bus) name
unfolding unsubscribe
unsubscribe-elsewhere subs bus channel name handler fits other =
    let kept : subscribed_to name (remove (is_of channel handler) subs) ≡ subscribed_to name subs =
      rw other at (subscribed_to-remove name channel handler subs) in
    elim (Option-cases (entry channel bus)) [
      | inl n ↦ rw n (rw kept fits)
      | inr (c, f) ↦ elim (Bool-cases (is_nil (delete_handler handler c).handlers)) [
        | inl last ↦ rw f (
            rw last (
              rw (entry-remove name channel bus.channels)
                (rw (listens-remove name channel bus.redis) (rw other (rw kept fits)))))
        | inr more ↦ rw f (
            rw more (
              rw (entry-update name channel (delete_handler handler) bus.channels (λ x. refl))
                (rw other (rw kept fits))))
      ]
    ]

Runs-Fits :
    (subs : List Subscription) (bus : Bus) → Runs subs bus → (name : String) → Fits subs bus name
Runs-Fits subs bus start name = (refl, refl, refl)
Runs-Fits subs bus (subscribes {subs = l} {bus = b} r channel handler new) name =
    elim (Bool-cases (str_eq channel name)) [
      | inr other ↦ subscribe-elsewhere l b channel name handler (Runs-Fits l b r name) other
      | inl same ↦
          let k : channel ≡ name = (eq_iff channel name).0 same in
          subst
            (Fits (record { channel = channel; handler = handler } ∷ l)
              (subscribe channel handler b))
            k (subscribe-here l b channel handler (Runs-Fits l b r channel) new)
    ]
Runs-Fits subs bus (unsubscribes {subs = l} {bus = b} r channel handler there) name =
    elim (Bool-cases (str_eq channel name)) [
      | inr other ↦ unsubscribe-elsewhere l b channel name handler (Runs-Fits l b r name) other
      | inl same ↦
          let k : channel ≡ name = (eq_iff channel name).0 same in
          subst (Fits (remove (is_of channel handler) l) (unsubscribe channel handler b)) k
            (unsubscribe-here l b channel handler (Runs-Fits l b r channel) there)
    ]

-- While calls of the bus do not overlap, a message on a channel is given to each handler that is
-- subscribed to the channel once and to no other, and the connection to Redis listens to a channel
-- exactly while somebody is subscribed to it.
pub delivered_to_subscribers :
    (subs : List Subscription) (bus : Bus) (name : String)
    → Runs subs bus
    → (deliver name bus ≡ subscribed_to name subs)
      × (any (λ r. str_eq r name) bus.redis ≡ not (is_nil (subscribed_to name subs)))
unfolding deliver
delivered_to_subscribers subs bus name r =
    let (held, listens, some_held) = Runs-Fits subs bus r name in
    (
      elim (Option-cases (entry name bus)) [
        | inl n ↦ rw listens (rw n (no_entry subs bus name (held, listens, some_held) n))
        | inr (c, f) ↦ rw listens (rw f (at_entry subs bus name c (held, listens, some_held) f).0)
      ],
      listens ∙ some_held,
    )
