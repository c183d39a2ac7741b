-- ===== src/Store/RefreshTokens.antt =====
-- PgRefreshTokenRepository, and the constraints of migrations/0001_init.sql on its table.
use backend_java_spring_boot.Prelude.{
  ℕ, Bool, true, ◌&&◌, ◌||◌, not, Option, none, some, ◌∷◌, List, any, filter, find?, update,
  sort_by, newest_first, ltb, ◌==◌, is_none, if◌then◌else◌,
}
use backend_java_spring_boot.Domain.{RefreshToken, RefreshTokenInsert, fault, err, ok}
use backend_java_spring_boot.World.{World, Action}
use backend_java_spring_boot.Store.Users.{user_exists}

abbrev pub token_exists : ℕ → World → Bool
token_exists id w = any (λ t. t.id == id) w.refresh_tokens

-- A nullable foreign key into the table.
abbrev pub reference_ok : Option ℕ → World → Bool
reference_ok none w = true
reference_ok (some id) w = token_exists id w

-- The row that the statement inserts; `created_at` has its default.
abbrev pub inserted : ℕ → RefreshTokenInsert → RefreshToken
inserted db_now r = record {
  id = r.id;
  user_id = r.user_id;
  token_hash = r.token_hash;
  family_id = r.family_id;
  parent_id = r.parent_id;
  replaced_by_id = r.replaced_by_id;
  user_agent = r.user_agent;
  ip = r.ip;
  expires_at = r.expires_at;
  revoked_at = r.revoked_at;
  created_at = db_now;
}

-- The primary key, the unique hash and the three foreign keys.
abbrev pub insert_allowed : RefreshTokenInsert → World → Bool
insert_allowed r w =
    not (any (λ t. (t.id == r.id) || (t.token_hash == r.token_hash)) w.refresh_tokens)
    && (user_exists r.user_id w && (reference_ok r.parent_id w && reference_ok r.replaced_by_id w))

-- The cast of `ip` to inet, which no controller gives a value to, is left out.
unfoldable pub insert : ℕ → RefreshTokenInsert → Action (Unit {0})
insert db_now r w =
    if insert_allowed r w
    then (ok tt, record w { refresh_tokens = inserted db_now r ∷ w.refresh_tokens })
    else (err fault, w)

abbrev pub find_by_id : ℕ → World → Option RefreshToken
find_by_id id w = find? (λ t. t.id == id) w.refresh_tokens

abbrev pub find_by_hash : ℕ → World → Option RefreshToken
find_by_hash hash w = find? (λ t. t.token_hash == hash) w.refresh_tokens

abbrev pub revoked : ℕ → Option ℕ → RefreshToken → RefreshToken
revoked db_now replaced_by t = record t { revoked_at = some db_now; replaced_by_id = replaced_by }

-- The foreign key of `replaced_by_id` is checked only where the statement meets a row.
unfoldable pub mark_revoked : ℕ → ℕ → Option ℕ → Action (Unit {0})
mark_revoked db_now id replaced_by w =
    if token_exists id w && not (reference_ok replaced_by w) then (err fault, w) else (
      ok tt,
      record w {
        refresh_tokens = update (λ t. t.id == id) (revoked db_now replaced_by) w.refresh_tokens;
      },
    )

abbrev pub is_live : RefreshToken → Bool
is_live t = is_none t.revoked_at

abbrev pub stamped : ℕ → RefreshToken → RefreshToken
stamped db_now t = record t { revoked_at = some db_now }

unfoldable pub revoke_family : ℕ → ℕ → Action (Unit {0})
revoke_family db_now family w = (
  ok tt,
  record w {
    refresh_tokens =
        update (λ t. (t.family_id == family) && is_live t) (stamped db_now) w.refresh_tokens;
  },
)

unfoldable pub revoke_all_for_user : ℕ → ℕ → Action (Unit {0})
revoke_all_for_user db_now user w = (
  ok tt,
  record w {
    refresh_tokens =
        update (λ t. (t.user_id == user) && is_live t) (stamped db_now) w.refresh_tokens;
  },
)

-- `expires_at > now()` is at the clock of the database.
unfoldable pub list_active_by_user : (db_now user : ℕ) → World → List RefreshToken
list_active_by_user db_now user w =
    sort_by (newest_first (λ t. t.created_at))
      (filter (λ t. (t.user_id == user) && (is_live t && ltb db_now t.expires_at)) w.refresh_tokens)
