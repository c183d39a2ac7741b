-- ===== src/Http/TooMany.antt =====
-- What a client gets that has used up its quota.
use Prim.Native.String.{String}
use backend_java_spring_boot.Prelude.{
  ℕ, ◌+◌, ◌-◌, ◌≤◌, ◌<◌, ◌≡◌, refl, true, false, some, List, [], ◌∷◌, ltb, arith,
}
use backend_java_spring_boot.Domain.{Result}
use backend_java_spring_boot.Limits.{Window, window_of}
use backend_java_spring_boot.Limits.Quota.{consume_counts}
use backend_java_spring_boot.Http.{
  Response, error_body, number, mapped_error, error_mapper, rate_limited,
}

-- Once a key has made as many requests as the limit says, a further one before its window ends is
-- answered 429 with the seconds that are left, whatever the rest of the chain would have answered.
pub over_quota_429 :
    (now later : ℕ) (key : String) (max window_sec : ℕ) (rest : Result Response) (ws : List Window)
    (win : Window)
    → window_of key ws ≡ some win
    → now < win.reset_at
    → max ≤ win.count
    → error_mapper (rate_limited now later key max window_sec rest ws).0 ≡ record {
      status = 429;
      body = error_body "Too many requests";
      headers = ("Retry-After", number (win.reset_at - later)) ∷ [];
    }
unfolding rate_limited error_mapper mapped_error
over_quota_429 now later key max window_sec rest ws win f early full =
    let over : ltb max (win.count + 1) ≡ true = ground arith in
    rw (consume_counts now key max window_sec ws win f early) (rw over refl)

-- Before that the rest of the chain answers.
pub within_quota :
    (now later : ℕ) (key : String) (max window_sec : ℕ) (rest : Result Response) (ws : List Window)
    (win : Window)
    → window_of key ws ≡ some win
    → now < win.reset_at
    → win.count < max
    → (rate_limited now later key max window_sec rest ws).0 ≡ rest
unfolding rate_limited
within_quota now later key max window_sec rest ws win f early left =
    let under : ltb max (win.count + 1) ≡ false = ground arith in
    rw (consume_counts now key max window_sec ws win f early) (rw under refl)
