-- ===== src/Limits.antt =====
-- in-memory-rate-limiter.ts
use Prim.Native.String.{String}
use text.Mathlib.Text.{◌==◌ as str_eq}
use backend_java_spring_boot.Prelude.{
  ℕ, ◌+◌, ◌-◌, Bool, true, false, ◌&&◌, Option, none, some, List, [], ◌∷◌, find?, remove, ltb, leb,
  if◌then◌else◌,
}
pub mod Quota
pub mod Sliding

-- An entry of `windows`, with its key; the times are seconds.
pub record Window : Type 0 where
  pub key : String
  pub count : ℕ
  pub reset_at : ℕ

pub record RateLimitResult : Type 0 where
  pub allowed : Bool
  pub remaining : ℕ
  pub reset_at : ℕ

abbrev pub keyed : String → Window → Bool
keyed key x = str_eq x.key key

-- `Map.get`
abbrev pub window_of : String → List Window → Option Window
window_of key ws = find? (keyed key) ws

-- `Map.set`, and a change of the object that the map holds
abbrev pub put : Window → List Window → List Window
put x ws = x ∷ remove (keyed x.key) ws

-- A new window. `max` is at least 1 in every call, so that `max - 1` is no negative number.
abbrev pub open_window :
    (now : ℕ) (key : String) (max window_sec : ℕ) → List Window → RateLimitResult × List Window
open_window now key max window_sec ws = (
  record { allowed = true; remaining = max - 1; reset_at = now + window_sec },
  put (record { key = key; count = 1; reset_at = now + window_sec }) ws,
)

-- `win.count++`, and the answer
abbrev pub count_in :
    (key : String) (max : ℕ) → Window → List Window → RateLimitResult × List Window
count_in key max win ws = (
  (if ltb max (win.count + 1)
      then record { allowed = false; remaining = 0; reset_at = win.reset_at }
      else record { allowed = true; remaining = max - (win.count + 1); reset_at = win.reset_at }),
  put (record { key = key; count = win.count + 1; reset_at = win.reset_at }) ws,
)

abbrev pub consume_in :
    Option Window
    → (now : ℕ) (key : String) (max window_sec : ℕ) → List Window
    → RateLimitResult × List Window
consume_in none now key max window_sec ws = open_window now key max window_sec ws
consume_in (some win) now key max window_sec ws =
    if leb win.reset_at now then open_window now key max window_sec ws else count_in key max win ws

-- `InMemoryRateLimiter.consume`, at the second `now`
unfoldable pub consume :
    (now : ℕ) (key : String) (max window_sec : ℕ) → List Window → RateLimitResult × List Window
consume now key max window_sec ws = consume_in (window_of key ws) now key max window_sec ws

pub record Call : Type 0 where
  pub now : ℕ
  pub key : String

-- How many calls of the key are let through.
abbrev pub allowed_of : (key : String) (max window_sec : ℕ) → List Call → List Window → ℕ
allowed_of key max window_sec [] ws = 0
allowed_of key max window_sec (c ∷ cs) ws =
    (if str_eq c.key key && (consume c.now c.key max window_sec ws).0.allowed then 1 else 0)
    + allowed_of key max window_sec cs (consume c.now c.key max window_sec ws).1
