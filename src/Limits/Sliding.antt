-- ===== src/Limits/Sliding.antt =====
-- redis-rate-limiter.ts. A sorted set `rl:<key>` is the list of its members with their scores, in
-- milliseconds; two members of a set are taken to differ, as their random parts do. The expiry
-- of a set takes only members that the next call would remove.
use Prim.Native.String.{String}
use text.Mathlib.Text.{◌==◌ as str_eq}
use text.Mathlib.TextEquality.{eq_iff}
use text.Mathlib.TextPositions.{eq_refl}
use backend_java_spring_boot.Prelude.{
  ℕ, ◌+◌, ◌-◌, ◌*◌, ◌/◌, ◌≤◌, ◌<◌, ◌≡◌, refl, inl, inr, ◌⊎◌, Bool, true, false, ◌&&◌, List, [], ◌∷◌,
  remove, count, All, ltb, leb, if◌then◌else◌, arith, Bool-cases,
}
use backend_java_spring_boot.Limits.{RateLimitResult, Call}

-- A member of a sorted set.
pub record Hit : Type 0 where
  pub key : String
  pub score : ℕ

abbrev pub of_key : String → Hit → Bool
of_key key h = str_eq h.key key

-- `zremrangebyscore`, from `-inf` to `now - windowMs`
abbrev pub unexpired_hits : (now : ℕ) (key : String) (window_ms : ℕ) → List Hit → List Hit
unexpired_hits now key window_ms hits =
    remove (λ h. of_key key h && leb (h.score + window_ms) now) hits

-- `zadd` of the present call
abbrev pub recorded : (now : ℕ) (key : String) (window_ms : ℕ) → List Hit → List Hit
recorded now key window_ms hits =
    record { key = key; score = now } ∷ unexpired_hits now key window_ms hits

abbrev pub answer : (max counted reset_at : ℕ) → RateLimitResult
answer max counted reset_at =
    if ltb max counted
    then record { allowed = false; remaining = 0; reset_at = reset_at }
    else record { allowed = true; remaining = max - counted; reset_at = reset_at }

-- `RedisRateLimiter.consume`, at the millisecond `now`
unfoldable pub consume :
    (now : ℕ) (key : String) (max window_sec : ℕ) → List Hit → RateLimitResult × List Hit
consume now key max window_sec hits =
    let after = recorded now key (window_sec * 1000) hits in
    (answer max (count (of_key key) after) ((now + window_sec * 1000 + 999) / 1000), after)

-- How many calls of the key are let through.
abbrev pub let_through : (key : String) (max window_sec : ℕ) → List Call → List Hit → ℕ
let_through key max window_sec [] hits = 0
let_through key max window_sec (c ∷ cs) hits =
    (if str_eq c.key key && (consume c.now c.key max window_sec hits).0.allowed then 1 else 0)
    + let_through key max window_sec cs (consume c.now c.key max window_sec hits).1

-- The hits of a key since a time.
abbrev pub since : (key : String) (start : ℕ) → List Hit → ℕ
since key start = count (λ h. of_key key h && leb start h.score)

since-of_key :
    (key : String) (start : ℕ) (hits : List Hit) → since key start hits ≤ count (of_key key) hits
since-of_key key start [] = omega arith
since-of_key key start (x ∷ xs) = ground (arith, since-of_key key start xs)

since-kept :
    (key other : String) (start now window_ms : ℕ) (hits : List Hit)
    → now < start + window_ms
    → since key start (unexpired_hits now other window_ms hits) ≡ since key start hits
since-kept key other start now window_ms [] h = refl
since-kept key other start now window_ms (x ∷ xs) h =
    ground (arith, since-kept key other start now window_ms xs h)

since-recorded :
    (key other : String) (start now window_ms : ℕ) (hits : List Hit)
    → start ≤ now
    → now < start + window_ms
    → since key start (recorded now other window_ms hits)
      ≡ (if str_eq other key then 1 else 0) + since key start hits
since-recorded key other start now window_ms hits late soon =
    ground (arith, since-kept key other start now window_ms hits soon)

-- A call that is let through finds room for itself beside the hits since the start.
room_left :
    (now : ℕ) (key : String) (max window_sec start : ℕ) (hits : List Hit)
    → start ≤ now
    → now < start + window_sec * 1000
    → (consume now key max window_sec hits).0.allowed ≡ true
    → since key start hits + 1 ≤ max
unfolding consume
room_left now key max window_sec start hits late soon let_in =
    let after = recorded now key (window_sec * 1000) hits in
    ground (
      arith,
      since-of_key key start after,
      since-recorded key key start now (window_sec * 1000) hits late soon,
      eq_refl key,
    )

consumed :
    (now : ℕ) (key : String) (max window_sec : ℕ) (hits : List Hit)
    → (consume now key max window_sec hits).1 ≡ recorded now key (window_sec * 1000) hits
unfolding consume
consumed now key max window_sec hits = refl

bounded :
    (key : String) (max window_sec start : ℕ) (calls : List Call) (hits : List Hit)
    → All (λ c. (start ≤ c.now) × (c.now < start + window_sec * 1000)) calls
    → let_through key max window_sec calls hits ≤ max - since key start hits
bounded key max window_sec start [] hits h = omega arith
bounded key max window_sec start (c ∷ cs) hits ((late, soon), rest) =
    let after = recorded c.now c.key (window_sec * 1000) hits in
    let ih = bounded key max window_sec start cs after rest in
    let grown = since-recorded key c.key start c.now (window_sec * 1000) hits late soon in
    rw (consumed c.now c.key max window_sec hits) (elim (Bool-cases (str_eq c.key key)) [
      | inr other ↦ ground (arith, ih, grown, other)
      | inl same ↦
          let k : c.key ≡ key = (eq_iff c.key key).0 same in
          elim (Bool-cases (consume c.now c.key max window_sec hits).0.allowed) [
            | inr no_room ↦ ground (arith, ih, grown, same, no_room)
            | inl let_in ↦
                let room =
                  rw k at (room_left c.now c.key max window_sec start hits late soon let_in) in
                ground (arith, ih, grown, same, let_in, room)
          ]
    ])

-- Whatever was called before, of the calls within any window at most as many of one key are let
-- through as the limit says, in whatever order and however many calls of other keys come between.
pub sliding_bound :
    (key : String) (max window_sec start : ℕ) (calls : List Call) (hits : List Hit)
    → All (λ c. (start ≤ c.now) × (c.now < start + window_sec * 1000)) calls
    → let_through key max window_sec calls hits ≤ max
sliding_bound key max window_sec start calls hits h =
    omega (arith, bounded key max window_sec start calls hits h)

gone :
    (now : ℕ) (key : String) (window_ms : ℕ) (hits : List Hit)
    → All (λ h. (of_key key h ≡ false) ⊎ (h.score + window_ms ≤ now)) hits
    → count (of_key key) (unexpired_hits now key window_ms hits) ≡ 0
gone now key window_ms [] h = refl
gone now key window_ms (x ∷ xs) (h, hs) = elim h [
  | inl other ↦ ground (arith, gone now key window_ms xs hs, other)
  | inr old ↦ ground (arith, gone now key window_ms xs hs, old)
]

-- A key that was not called within the last window is let through, and has the rest of its limit
-- left.
pub idle_let_through :
    (now : ℕ) (key : String) (max window_sec : ℕ) (hits : List Hit)
    → 1 ≤ max
    → All (λ h. (of_key key h ≡ false) ⊎ (h.score + window_sec * 1000 ≤ now)) hits
    → ((consume now key max window_sec hits).0.allowed ≡ true)
      × ((consume now key max window_sec hits).0.remaining ≡ max - 1)
unfolding consume
idle_let_through now key max window_sec hits left old =
    ground (arith, gone now key (window_sec * 1000) hits old, eq_refl key)
