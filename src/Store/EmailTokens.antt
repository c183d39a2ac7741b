-- ===== src/Store/EmailTokens.antt =====
-- PgEmailTokenRepository
use backend_java_spring_boot.Prelude.{
  ℕ, Bool, ◌&&◌, ◌||◌, not, Option, none, some, ◌∷◌, any, find?, map_some, update, ◌==◌, ltb,
  is_none, if◌then◌else◌,
}
use backend_java_spring_boot.Domain.{
  EmailToken, EmailTokenInsert, EmailTokenKind, kind_eq, fault, err, ok,
}
use backend_java_spring_boot.World.{Action}
use backend_java_spring_boot.Store.Users.{user_exists}

abbrev pub inserted : EmailTokenInsert → EmailToken
inserted r = record {
  id = r.id;
  user_id = r.user_id;
  kind = r.kind;
  token_hash = r.token_hash;
  expires_at = r.expires_at;
  used_at = none;
}

unfoldable pub insert : EmailTokenInsert → Action (Unit {0})
insert r w =
    if not (any (λ t. (t.id == r.id) || (t.token_hash == r.token_hash)) w.email_tokens)
      && user_exists r.user_id w
    then (ok tt, record w { email_tokens = inserted r ∷ w.email_tokens })
    else (err fault, w)

-- the WHERE of `consume`
abbrev pub is_usable : ℕ → ℕ → EmailTokenKind → EmailToken → Bool
is_usable db_now hash kind t =
    (t.token_hash == hash)
    && (kind_eq t.kind kind && (is_none t.used_at && ltb db_now t.expires_at))

abbrev pub used : ℕ → EmailToken → EmailToken
used db_now t = record t { used_at = some db_now }

-- UPDATE … RETURNING: the rows that are met come back as they are after the update.
unfoldable pub consume : ℕ → ℕ → EmailTokenKind → Action (Option EmailToken)
consume db_now hash kind w =
    let after = record w {
      email_tokens = update (is_usable db_now hash kind) (used db_now) w.email_tokens;
    } in
    (ok (map_some (used db_now) (find? (is_usable db_now hash kind) w.email_tokens)), after)
