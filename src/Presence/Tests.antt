-- ===== src/Presence/Tests.antt =====
-- One user with two connections, and another user, over two minutes.
use backend_java_spring_boot.Prelude.{◌≡◌, refl, true, false, List, [], ◌∷◌, arith}
use backend_java_spring_boot.Presence.Expiry.{
  Timed, Step, opened, beaten, closed, apply, run, is_online_at,
}
use backend_java_spring_boot.Presence.Deadlines.{beat_keeps_online}
use backend_java_spring_boot.Presence.Silence.{silent_user_unannounced}

abbrev nobody : Timed
nobody = record { presence = record { connections = []; published = [] }; deadline = λ u. 0 }

-- The other connection of the user 1 is closed.
abbrev minute : List Step
minute =
    opened 1010 1 31
    ∷ opened 1020 2 40
    ∷ closed 2000 1 31
    ∷ beaten 30000 2 40
    ∷ closed 31000 2 40
    ∷ []

abbrev others : List Step
others = opened 1020 2 40 ∷ beaten 30000 2 40 ∷ closed 90000 2 40 ∷ []

beat_keeps_online_example :
    is_online_at 60999 1 (run 60 minute (apply 60 (beaten 1000 1 30) nobody)) ≡ true
beat_keeps_online_example = beat_keeps_online 1 30 60 1000 60999 minute nobody refl (ground arith)

silent_user_unannounced_example :
    let s = run 60 others (apply 60 (beaten 1000 1 30) nobody) in
    (is_online_at 95000 1 s ≡ false)
    × ((apply 60 (closed 95000 1 30) s).presence.published ≡ s.presence.published)
silent_user_unannounced_example =
    silent_user_unannounced 1 60 1000 95000 30 others nobody refl (ground arith)
