-- ===== src/Presence/Silence.antt =====
-- What becomes of a user who sends no heartbeat.
use backend_java_spring_boot.Prelude.{
  leb, ◌<◌, ℕ, ◌+◌, ◌*◌, ◌≡◌, refl, ap, ◌∙◌, Bool, true, false, ◌&&◌, not, List, [], ◌∷◌, any,
  filter, ◌==◌, arith,
}
use backend_java_spring_boot.Presence.{Connection, Presence, field, mark_user_offline}
use backend_java_spring_boot.Presence.Expiry.{
  Timed, settle, Step, opened, beaten, closed, apply, run, is_online_at,
}

-- A step that is no sign of a user
abbrev pub is_silent : (user : ℕ) → Step → Bool
is_silent user (opened time u conn) = not (u == user)
is_silent user (beaten time u conn) = not (u == user)
is_silent user (closed time u conn) = true

abbrev pub all_silent : (user : ℕ) → List Step → Bool
all_silent user [] = true
all_silent user (x ∷ xs) = is_silent user x && all_silent user xs

module _ (user : ℕ) where
  apply-deadline :
      (ttl_sec : ℕ) (x : Step) (s : Timed)
      → is_silent user x ≡ true
      → (apply ttl_sec x s).deadline user ≡ s.deadline user
  unfolding apply
  apply-deadline ttl_sec (opened time u conn) s h = ground arith
  apply-deadline ttl_sec (beaten time u conn) s h = ground arith
  apply-deadline ttl_sec (closed time u conn) s h = refl

  run-deadline :
      (ttl_sec : ℕ) (xs : List Step) (s : Timed)
      → all_silent user xs ≡ true
      → (run ttl_sec xs s).deadline user ≡ s.deadline user
  run-deadline ttl_sec [] s h = refl
  run-deadline ttl_sec (x ∷ xs) s h =
      run-deadline ttl_sec xs (apply ttl_sec x s) (ground arith)
      ∙ apply-deadline ttl_sec x s (ground arith)

  -- Past its deadline, the hash of the user is empty.
  filter-gone :
      (now : ℕ) (deadline : ℕ → ℕ) (cs : List Connection)
      → deadline user < now
      → any (λ c. c.user == user) (filter (λ c. leb now (deadline c.user)) cs) ≡ false
  filter-gone now deadline [] h = refl
  filter-gone now deadline (c ∷ cs) h =
      let same : c.user ≡ user → deadline c.user ≡ deadline user = ap deadline in
      ground (arith, filter-gone now deadline cs h, same)

  field-gone :
      (conn : ℕ) (cs : List Connection)
      → any (λ c. c.user == user) cs ≡ false
      → any (field user conn) cs ≡ false
  field-gone conn [] h = refl
  field-gone conn (c ∷ cs) h = ground (arith, field-gone conn cs)

  offline_unannounced :
      (conn : ℕ) (s : Presence)
      → any (field user conn) s.connections ≡ false
      → mark_user_offline user conn s ≡ s
  unfolding mark_user_offline
  offline_unannounced conn s h = rw h refl

  beaten-deadline :
      (ttl_sec from conn : ℕ) (s : Timed)
      → (apply ttl_sec (beaten from user conn) s).deadline user ≡ from + ttl_sec * 1000
  unfolding apply
  beaten-deadline ttl_sec from conn s = ground arith

  closed_unannounced :
      (ttl_sec now conn : ℕ) (s : Timed)
      → any (field user conn) (settle now s).connections ≡ false
      → (apply ttl_sec (closed now user conn) s).presence.published ≡ s.presence.published
  unfolding apply
  closed_unannounced ttl_sec now conn s gone =
      rw (offline_unannounced conn (settle now s) gone) refl

  -- A user who was last heard of at a time is offline once the lifetime of the setting is over,
  -- whatever others do; but a connection of the user that is closed from then on publishes nothing,
  -- so nobody is told.
  pub silent_user_unannounced :
      (ttl_sec from now conn : ℕ) (xs : List Step) (s : Timed)
      → all_silent user xs ≡ true
      → from + ttl_sec * 1000 < now
      → let s' = run ttl_sec xs (apply ttl_sec (beaten from user conn) s) in
        (is_online_at now user s' ≡ false)
        × ((apply ttl_sec (closed now user conn) s').presence.published ≡ s'.presence.published)
  silent_user_unannounced ttl_sec from now conn xs s silent late =
      let beat = apply ttl_sec (beaten from user conn) s in
      let s' = run ttl_sec xs beat in
      let over = run-deadline ttl_sec xs beat silent ∙ beaten-deadline ttl_sec from conn s in
      let gone = filter-gone now s'.deadline s'.presence.connections (ground arith) in
      (
        gone,
        closed_unannounced ttl_sec now conn s' (field-gone conn (settle now s').connections gone),
      )
