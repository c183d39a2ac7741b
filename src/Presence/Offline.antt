-- ===== src/Presence/Offline.antt =====
-- When a user is announced as offline.
use backend_java_spring_boot.Prelude.{
  ℕ, ◌+◌, ◌≡◌, refl, not, List, [], ◌∷◌, any, count, remove, leb, ◌==◌, arith, if◌then◌else◌,
  any-false→count,
}
use backend_java_spring_boot.Presence.{
  Connection, Presence, presence_offline, field, mark_user_offline,
}

abbrev pub connections_of : ℕ → Presence → ℕ
connections_of user s = count (λ c. c.user == user) s.connections

any-count :
    (user : ℕ) (cs : List Connection)
    → any (λ c. c.user == user) cs ≡ not (leb (count (λ c. c.user == user) cs) 0)
any-count user [] = refl
any-count user (x ∷ xs) = ground (arith, any-count user xs)

count-without :
    (user conn : ℕ) (cs : List Connection)
    → count (λ c. c.user == user) (remove (field user conn) cs) + count (field user conn) cs
      ≡ count (λ c. c.user == user) cs
count-without user conn [] = refl
count-without user conn (x ∷ xs) = ground (arith, count-without user conn xs)

-- When a connection of a user is closed, the user is announced as offline exactly if it
-- was the user's only one, and then once.
pub offline_when_last :
    (user conn : ℕ) (s : Presence)
    → count (field user conn) s.connections ≡ 1
    → (mark_user_offline user conn s).published
      ≡ (if connections_of user s == 1 then presence_offline user ∷ s.published else s.published)
unfolding mark_user_offline
offline_when_last user conn s h = ground (
  arith,
  any-count user (remove (field user conn) s.connections),
  count-without user conn s.connections,
  any-false→count (field user conn) s.connections,
)
