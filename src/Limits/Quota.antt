-- ===== src/Limits/Quota.antt =====
-- How many requests of a key the limiter lets through.
use Prim.Native.String.{String}
use text.Mathlib.Text.{◌==◌ as str_eq}
use text.Mathlib.TextEquality.{eq_iff}
use text.Mathlib.TextPositions.{eq_refl}
use backend_java_spring_boot.Prelude.{
  ℕ, ◌+◌, ◌-◌, ◌≤◌, ◌<◌, ◌≡◌, refl, ◌∙◌, inl, inr, true, false, some, List, [], ◌∷◌, count, All,
  ltb, leb, arith, if◌then◌else◌, Bool-cases, Option-cases, find?-remove_other,
}
use backend_java_spring_boot.Limits.{
  Window, keyed, window_of, put, open_window, count_in, consume, Call, allowed_of,
}

abbrev pub calls_of : String → List Call → ℕ
calls_of key = count (λ c. str_eq c.key key)

abbrev pub lesser : ℕ → ℕ → ℕ
lesser a b = if leb a b then a else b

-- Two keys that a third one is equal to are equal.
same_key : (a b c : String) → str_eq a b ≡ true → str_eq a c ≡ true → str_eq b c ≡ true
same_key a b c h k = rw ((eq_iff a b).0 h) at k

other_key : (a b c : String) → str_eq a c ≡ true → str_eq b c ≡ false → str_eq a b ≡ false
other_key a b c h k = elim (Bool-cases (str_eq a b)) [
  | inl t ↦ let e = same_key a b c t h in cc
  | inr t ↦ t
]

window-put :
    (key : String) (x : Window) (ws : List Window)
    → str_eq x.key key ≡ true
    → window_of key (put x ws) ≡ some x
window-put key x ws h = rw h refl

window-put_other :
    (key : String) (x : Window) (ws : List Window)
    → str_eq x.key key ≡ false
    → window_of key (put x ws) ≡ window_of key ws
window-put_other key x ws h =
    rw h (find?-remove_other (keyed key) (keyed x.key) ws (λ y k. other_key y.key x.key key k h))

-- Whatever a call of another key does, the window of the key stays.
window-consume_other :
    (now : ℕ) (other key : String) (max window_sec : ℕ) (ws : List Window)
    → str_eq other key ≡ false
    → window_of key (consume now other max window_sec ws).1 ≡ window_of key ws
unfolding consume
window-consume_other now other key max window_sec ws h = elim (Option-cases (window_of other ws)) [
  | inl n ↦ rw n (window-put_other key _ ws h)
  | inr (x, n) ↦ rw n (elim (Bool-cases (leb x.reset_at now)) [
    | inl t ↦ rw t (window-put_other key _ ws h)
    | inr t ↦ rw t (window-put_other key _ ws h)
  ])
]

pub consume_counts :
    (now : ℕ) (key : String) (max window_sec : ℕ) (ws : List Window) (win : Window)
    → window_of key ws ≡ some win
    → now < win.reset_at
    → consume now key max window_sec ws ≡ count_in key max win ws
unfolding consume
consume_counts now key max window_sec ws win f h =
    let early : leb win.reset_at now ≡ false = ground arith in rw f (rw early refl)

-- While the window of the key is open, as many calls of the key are let through as it has left,
-- or all of them where there are fewer, whatever calls of other keys come between.
allowed_in_window :
    (key : String) (max window_sec : ℕ) (calls : List Call) (ws : List Window) (win : Window)
    → window_of key ws ≡ some win
    → All (λ c. c.now < win.reset_at) calls
    → allowed_of key max window_sec calls ws ≡ lesser (max - win.count) (calls_of key calls)
allowed_in_window key max window_sec [] ws win f h = ground arith
allowed_in_window key max window_sec (c ∷ cs) ws win f (early, rest) =
    elim (Bool-cases (str_eq c.key key)) [
      | inr other ↦
          let ih =
            allowed_in_window key max window_sec cs (consume c.now c.key max window_sec ws).1 win
              (window-consume_other c.now c.key key max window_sec ws other ∙ f) rest in
          ground (arith, ih, other)
      | inl same ↦
          let k : c.key ≡ key = (eq_iff c.key key).0 same in
          let there : window_of c.key ws ≡ some win = rw k f in
          let next : Window = record {
            key = c.key;
            count = win.count + 1;
            reset_at = win.reset_at;
          } in
          let found : window_of key (put next ws) ≡ some next = window-put key next ws same in
          let ih = allowed_in_window key max window_sec cs (put next ws) next found rest in
          rw (consume_counts c.now c.key max window_sec ws win there early)
            (elim (Bool-cases (ltb max (win.count + 1))) [
              | inl over ↦ rw over (ground (arith, ih, same))
              | inr under ↦ rw under (ground (arith, ih, same))
            ])
    ]

opening :
    (now : ℕ) (key : String) (max window_sec : ℕ) (ws : List Window)
    → ((x : Window) → window_of key ws ≡ some x → x.reset_at ≤ now)
    → consume now key max window_sec ws ≡ open_window now key max window_sec ws
unfolding consume
opening now key max window_sec ws h = elim (Option-cases (window_of key ws)) [
  | inl n ↦ rw n refl
  | inr (x, n) ↦ let over : leb x.reset_at now ≡ true = ground (arith, h x n) in rw n (rw over refl)
]

-- From a request that finds no open window of its key, until that window ends, as many requests
-- of the key are let through as the limit says, or all of them where there are fewer; requests of
-- other keys, at any time in between, make no difference.
pub quota_of_window :
    (now : ℕ) (key : String) (max window_sec : ℕ) (calls : List Call) (ws : List Window)
    → 1 ≤ max
    → ((x : Window) → window_of key ws ≡ some x → x.reset_at ≤ now)
    → All (λ c. c.now < now + window_sec) calls
    → allowed_of key max window_sec (record { now = now; key = key } ∷ calls) ws
      ≡ lesser max (1 + calls_of key calls)
quota_of_window now key max window_sec calls ws some_left closed h =
    let first : Window = record { key = key; count = 1; reset_at = now + window_sec } in
    rw (opening now key max window_sec ws closed) (
      rw (eq_refl key) (
        ground (
          arith,
          allowed_in_window key max window_sec calls (put first ws) first
              (window-put key first ws (eq_refl key)) h,
        )))
