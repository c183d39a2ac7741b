-- ===== src/Tickets.antt =====
-- redis-ws-ticket-store.ts and issue-ws-ticket.ts. The key `ws:ticket:<ticket>` is its ticket; Redis
-- has its own clock, in milliseconds.
use backend_java_spring_boot.Prelude.{
  ℕ, ◌+◌, ◌*◌, ◌<◌, ◌≤◌, ◌≡◌, refl, Bool, ◌&&◌, Option, none, some, List, [], ◌∷◌, find?, remove,
  map_some, ltb, leb, ◌==◌, arith, if◌then◌else◌,
}

pub record Ticket : Type 0 where
  pub ticket : ℕ
  pub user : ℕ
  pub expires_at : ℕ

-- The key is there, and did not expire: a key goes when the clock is past its time.
abbrev pub is_live : (now ticket : ℕ) → Ticket → Bool
is_live now ticket t = (t.ticket == ticket) && leb now t.expires_at

abbrev pub holder : (now ticket : ℕ) → List Ticket → Option ℕ
holder now ticket ts = map_some (λ t. t.user) (find? (is_live now ticket) ts)

abbrev pub ticket_for : (now ttl_sec ticket user : ℕ) → Ticket
ticket_for now ttl_sec ticket user = record {
  ticket = ticket;
  user = user;
  expires_at = now + ttl_sec * 1000;
}

-- `issue`, and `IssueWsTicket.execute`, with the random UUID that it draws: `SET` replaces, and
-- raises where the time to live is 0.
unfoldable pub issue : (now ttl_sec ticket user : ℕ) → List Ticket → Option (ℕ × List Ticket)
issue now ttl_sec ticket user ts =
    if ltb 0 ttl_sec
    then some (ticket, ticket_for now ttl_sec ticket user ∷ remove (λ t. t.ticket == ticket) ts)
    else none

-- `del`, where `get` found somebody
abbrev pub deleted : Option ℕ → ℕ → List Ticket → List Ticket
deleted none ticket ts = ts
deleted (some user) ticket ts = remove (λ t. t.ticket == ticket) ts

-- `consume`, where nothing else runs between `get` and `del`
unfoldable pub consume : (now ticket : ℕ) → List Ticket → Option ℕ × List Ticket
consume now ticket ts = (holder now ticket ts, deleted (holder now ticket ts) ticket ts)

-- A ticket that is not there has no holder.
removed-live :
    (now ticket : ℕ) (ts : List Ticket)
    → find? (is_live now ticket) (remove (λ t. t.ticket == ticket) ts) ≡ none
removed-live now ticket [] = refl
removed-live now ticket (t ∷ ts) = ground (arith, removed-live now ticket ts)

consume-absent :
    (now ticket : ℕ) (ts : List Ticket)
    → find? (is_live now ticket) ts ≡ none
    → consume now ticket ts ≡ (none, ts)
unfolding consume
consume-absent now ticket ts h = rw h refl

issued-rows :
    (now ttl_sec ticket user : ℕ) (ts ts' : List Ticket)
    → issue now ttl_sec ticket user ts ≡ some (ticket, ts')
    → ts' ≡ ticket_for now ttl_sec ticket user ∷ remove (λ t. t.ticket == ticket) ts
unfolding issue
issued-rows now ttl_sec ticket user ts ts' h = ground arith

issued-holder :
    (now ttl_sec ticket user : ℕ) (ts ts' : List Ticket)
    → issue now ttl_sec ticket user ts ≡ some (ticket, ts')
    → (used : ℕ) → used ≤ now + ttl_sec * 1000
    → holder used ticket ts' ≡ some user
issued-holder now ttl_sec ticket user ts ts' h used early =
    rw (issued-rows now ttl_sec ticket user ts ts' h) (ground arith)

consumed_found :
    (now ticket user : ℕ) (ts : List Ticket)
    → holder now ticket ts ≡ some user
    → consume now ticket ts ≡ (some user, remove (λ t. t.ticket == ticket) ts)
unfolding consume
consumed_found now ticket user ts h = rw h refl

-- A ticket that was issued admits its user until it expires, whatever was issued before, and only
-- once: consumed again, at any time, it admits nobody.
pub ticket_admits_once :
    (now ttl_sec ticket user : ℕ) (ts ts' : List Ticket)
    → issue now ttl_sec ticket user ts ≡ some (ticket, ts')
    → (used again : ℕ) → used ≤ now + ttl_sec * 1000
    → let (answer, left) = consume used ticket ts' in
      (answer ≡ some user) × (consume again ticket left ≡ (none, left))
ticket_admits_once now ttl_sec ticket user ts ts' h used again early =
    let held = issued-holder now ttl_sec ticket user ts ts' h used early in
    rw (consumed_found used ticket user ts' held)
      (refl, consume-absent again ticket _ (removed-live again ticket ts'))

-- Once its time is over, it admits nobody, and nothing is deleted.
pub ticket_expires :
    (now ttl_sec ticket user : ℕ) (ts ts' : List Ticket)
    → issue now ttl_sec ticket user ts ≡ some (ticket, ts')
    → (used : ℕ) → now + ttl_sec * 1000 < used
    → consume used ticket ts' ≡ (none, ts')
ticket_expires now ttl_sec ticket user ts ts' h used late =
    let rows = issued-rows now ttl_sec ticket user ts ts' h in
    consume-absent used ticket ts' (rw rows (ground (arith, removed-live used ticket ts)))
