-- ===== src/Migrations/Tests.antt =====
-- Concrete runs of the migrator.
use Prim.Native.String.{String}
use text.Mathlib.Text.{◌==◌ as str_eq}
use backend_java_spring_boot.Prelude.{
  ℕ, ◌≡◌, refl, true, List, [], ◌∷◌, Option, some, if◌then◌else◌,
}
use backend_java_spring_boot.Domain.{ok}
use backend_java_spring_boot.Migrations.{File, Database, migrate}
use backend_java_spring_boot.Migrations.Again.{migrate-again}

abbrev hash : String → ℕ
hash s = if str_eq s "create" then 1 else 2

-- A schema is the list of the texts that were executed.
abbrev execute : String → List String → Option (List String)
execute s schema = some (s ∷ schema)

abbrev directory : List File
directory =
    record { name = "0001_init.sql"; content = "create" }
    ∷ record { name = "notes.md"; content = "" }
    ∷ record { name = "0002_more.sql"; content = "alter" }
    ∷ []

abbrev migrated : Database (List String)
migrated = record {
  schema = "alter" ∷ "create" ∷ [];
  migrations =
      record { id = 2; name = "0002_more.sql"; hash = 2 }
      ∷ record { id = 1; name = "0001_init.sql"; hash = 1 }
      ∷ [];
}

first_run :
    migrate hash execute (λ a b. true) directory (record { schema = []; migrations = [] })
    ≡ (ok tt, migrated)
unfolding migrate
first_run = refl

migrate-again_example : migrate hash execute (λ a b. true) directory migrated ≡ (ok tt, migrated)
migrate-again_example =
    migrate-again hash execute (λ a b. true) directory (record { schema = []; migrations = [] })
      migrated first_run
