-- ===== src/Migrations.antt =====
-- src/infrastructure/db/migrator.ts. `execute` is what PostgreSQL makes of a schema with the text of
-- a file, `none` where it raises; a table `_migrations` that is not there yet is an empty one.
use Prim.Native.Char.{Char, code}
use Prim.Native.String
use Prim.Native.String.{String}
use text.Mathlib.Text.{◌==◌ as str_eq}
use backend_java_spring_boot.Prelude.{
  ℕ, zero, suc, ◌+◌, ◌-◌, ◌*◌, ⊤, Bool, true, false, ◌&&◌, ◌||◌, not, Option, none, some, List, [],
  ◌∷◌, filter, sort_by, leb, ◌==◌, if◌then◌else◌,
}
use backend_java_spring_boot.Domain.{Result, ok, err, fault}
use backend_java_spring_boot.Web.Middlewares.{slice}
pub mod Again
mod Tests

pub record File : Type 0 where
  pub name : String
  pub content : String

-- A row of `_migrations`, without its time.
pub record Row : Type 0 where
  pub id : ℕ
  pub name : String
  pub hash : ℕ

pub record Database (A : Type 0) : Type 0 where
  pub schema : A
  pub migrations : List Row

abbrev pub is_digit : Char → Bool
is_digit c = leb 48 (code c) && leb (code c) 57

abbrev pub digits : ℕ → String → Bool
digits zero s = true
digits (suc n) String.[] = false
digits (suc n) (String.◌∷◌ c s) = is_digit c && digits n s

-- What `.` does not match, of the first 128 characters
abbrev pub is_line_end : Char → Bool
is_line_end c = (code c == 10) || (code c == 13)

-- `.*\.sql` up to the end
abbrev pub ends_in_sql : String → Bool
ends_in_sql String.[] = false
ends_in_sql (String.◌∷◌ c s) =
    str_eq (String.◌∷◌ c s) ".sql" || (not (is_line_end c) && ends_in_sql s)

-- `_.+\.sql` up to the end
abbrev pub named_sql : String → Bool
named_sql String.[] = false
named_sql (String.◌∷◌ c String.[]) = false
named_sql (String.◌∷◌ c (String.◌∷◌ d s)) = (code c == 95) && (not (is_line_end d) && ends_in_sql s)

-- `/^\d{4}_.+\.sql$/.test`
abbrev pub is_migration : String → Bool
is_migration name = digits 4 name && named_sql (slice 4 name)

-- `parseInt(file.slice(0, 4), 10)`, of four digits
abbrev pub number_of : (digits acc : ℕ) → String → ℕ
number_of zero acc s = acc
number_of (suc n) acc String.[] = acc
number_of (suc n) acc (String.◌∷◌ c s) = number_of n (acc * 10 + (code c - 48)) s

abbrev pub id_of : File → ℕ
id_of file = number_of 4 0 file.name

-- `applied.get(id)`
abbrev pub hash_at : ℕ → List Row → Option ℕ
hash_at id [] = none
hash_at id (row ∷ rows) = if row.id == id then some row.hash else hash_at id rows

module _ {A : Type 0} (sha256 : String → ℕ) (execute : String → A → Option A) where
  abbrev pub row_of : File → Row
  row_of file = record { id = id_of file; name = file.name; hash = sha256 file.content }

  -- The `INSERT` after the text of the file, which the primary key refuses for an id that is there.
  abbrev pub inserted : File → Option A → Option ℕ → Database A → Result ⊤ × Database A
  inserted file none there db = (err fault, db)
  inserted file (some schema) (some hash) db = (err fault, db)
  inserted file (some schema) none db =
      (ok tt, record { schema = schema; migrations = row_of file ∷ db.migrations })

  -- `sql.begin`: all of it, or none where anything raises
  unfoldable pub transaction : File → Database A → Result ⊤ × Database A
  transaction file db =
      inserted file (execute file.content db.schema) (hash_at (id_of file) db.migrations) db

  abbrev pub run_unless : Option ℕ → File → Database A → Result ⊤ × Database A
  run_unless none file db = transaction file db
  run_unless (some hash) file db =
      if hash == sha256 file.content then (ok tt, db) else (err fault, db)

  abbrev pub after :
      Result ⊤ × Database A → (Database A → Result ⊤ × Database A) → Result ⊤ × Database A
  after (ok a, db) f = f db
  after (err e, db) f = (err e, db)

  -- The loop, with the rows `applied` that were read before it
  unfoldable pub run_files : List Row → List File → Database A → Result ⊤ × Database A
  unfolding transaction
  run_files applied [] db = (ok tt, db)
  run_files applied (file ∷ files) db =
      after (run_unless (hash_at (id_of file) applied) file db) (run_files applied files)

  -- `migrate`, on the files of the directory; `name_before` is the order of `sort`.
  unfoldable pub migrate :
      (name_before : String → String → Bool) → List File → Database A → Result ⊤ × Database A
  unfolding run_files
  migrate name_before files db =
      run_files db.migrations
        (sort_by (λ f g. name_before f.name g.name) (filter (λ f. is_migration f.name) files)) db
