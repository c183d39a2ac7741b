-- ===== src/Bus/Tests.antt =====
-- A concrete run of the bus.
use text.Mathlib.Text.{◌==◌ as str_eq}
use backend_java_spring_boot.Prelude.{◌≡◌, refl, true, [], ◌∷◌, any}
use backend_java_spring_boot.Bus.{Bus, subscribe, unsubscribe, deliver}
use backend_java_spring_boot.Bus.Subscribers.{
  Runs, start, subscribes, unsubscribes, delivered_to_subscribers,
}

-- Two handlers of one channel, of which the second has left
abbrev one_left : Bus
one_left =
    unsubscribe "a" 2 (subscribe "a" 2 (subscribe "a" 1 (record { channels = []; redis = [] })))

left_run : Runs (record { channel = "a"; handler = 1 } ∷ []) one_left
left_run = unsubscribes (subscribes (subscribes start "a" 1 refl) "a" 2 refl) "a" 2 refl

delivered_to_subscribers_example :
    (deliver "a" one_left ≡ 1 ∷ []) × (any (λ r. str_eq r "a") one_left.redis ≡ true)
delivered_to_subscribers_example =
    delivered_to_subscribers (record { channel = "a"; handler = 1 } ∷ []) one_left "a" left_run
