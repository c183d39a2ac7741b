-- ===== src/Ws/Seats.antt =====
-- What the changes of connection-registry.ts do to the counts of seats and entries.
use backend_java_spring_boot.Prelude.{
  ℕ, ◌+◌, ◌≤◌, ◌≡◌, refl, true, false, ◌&&◌, none, List, [], ◌∷◌, any, find?, remove, update, ◌==◌,
  arith, if◌then◌else◌, count-update,
}
use backend_java_spring_boot.Ws.Registry.{Seat, BusEntry, seat, add_seat, with_refs}
use backend_java_spring_boot.Ws.Synced.{in_seats, at_seat, entries, refs}

pub in_seats-add :
    (r room ws : ℕ) (l : List Seat)
    → any (seat room ws) l ≡ false
    → in_seats r (add_seat room ws l) ≡ (if r == room then 1 else 0) + in_seats r l
in_seats-add r room ws l h = ground arith

pub at_seat-add :
    (r q room ws : ℕ) (l : List Seat)
    → any (seat room ws) l ≡ false
    → at_seat r q (add_seat room ws l) ≡ (if (r == room) && (q == ws) then 1 else 0) + at_seat r q l
at_seat-add r q room ws l h = ground arith

pub at_seat→any :
    (room ws : ℕ) (l : List Seat) → at_seat room ws l ≡ 0 → any (seat room ws) l ≡ false
at_seat→any room ws [] h = refl
at_seat→any room ws (x ∷ xs) h = ground (arith, at_seat→any room ws xs)

pub entries-update :
    (r q n : ℕ) (es : List BusEntry)
    → entries r (update (λ x. x.room == q) (with_refs n) es) ≡ entries r es
entries-update r q n es =
    count-update (λ e. e.room == r) (λ x. x.room == q) (with_refs n) es (λ _. refl)

pub entries-remove :
    (r q : ℕ) (es : List BusEntry)
    → entries r (remove (λ x. x.room == q) es) ≡ (if r == q then 0 else entries r es)
entries-remove r q [] = ground arith
entries-remove r q (x ∷ xs) = ground (arith, entries-remove r q xs)

pub at_seat-remove :
    (r q room ws : ℕ) (l : List Seat)
    → at_seat r q (remove (seat room ws) l)
      ≡ (if (r == room) && (q == ws) then 0 else at_seat r q l)
at_seat-remove r q room ws [] = ground arith
at_seat-remove r q room ws (x ∷ xs) = ground (arith, at_seat-remove r q room ws xs)

pub free-at_seat :
    (r q room ws : ℕ) (l : List Seat)
    → any (seat room ws) l ≡ false
    → ((r == room) && (q == ws)) ≡ true
    → at_seat r q l ≡ 0
free-at_seat r q room ws [] h k = refl
free-at_seat r q room ws (x ∷ xs) h k = ground (arith, free-at_seat r q room ws xs)

pub no_entry-refs :
    (r q : ℕ) (es : List BusEntry)
    → find? (λ e. e.room == q) es ≡ none
    → (r == q) ≡ true
    → refs r es ≡ 0
no_entry-refs r q [] h k = refl
no_entry-refs r q (x ∷ xs) h k = ground (arith, no_entry-refs r q xs)

pub no_entry-entries :
    (r q : ℕ) (es : List BusEntry)
    → find? (λ e. e.room == q) es ≡ none
    → (r == q) ≡ true
    → entries r es ≡ 0
no_entry-entries r q [] h k = refl
no_entry-entries r q (x ∷ xs) h k = ground (arith, no_entry-entries r q xs)

pub at_seat-add_once :
    (r q room ws : ℕ) (l : List Seat)
    → any (seat room ws) l ≡ false
    → at_seat r q l ≤ 1
    → at_seat r q (add_seat room ws l) ≤ 1
at_seat-add_once r q room ws l h k =
    ground (arith, at_seat-add r q room ws l h, free-at_seat r q room ws l h)
