-- ===== src/Migrations/Again.antt =====
-- What a run of migrator.ts leaves behind.
use Prim.Native.String.{String}
use backend_java_spring_boot.Prelude.{
  ℕ, ⊤, ◌≡◌, refl, sym, ap, inl, inr, Bool, true, Bool-cases, Option, none, some, List, [], ◌∷◌,
  All, ◌==◌, filter, sort_by, arith,
}
use backend_java_spring_boot.Domain.{Result, ok, err}
use backend_java_spring_boot.Migrations.{
  File, Row, Database, is_migration, id_of, hash_at, row_of, inserted, transaction, run_unless,
  after, run_files, migrate,
}

same_number : (n : ℕ) → (n == n) ≡ true
same_number n = ground arith

-- The rows that stand, with more of them.
abbrev pub Extends : List Row → List Row → Type 0
Extends rows more = (id hash : ℕ) → hash_at id rows ≡ some hash → hash_at id more ≡ some hash

module _ {A : Type 0} (sha256 : String → ℕ) (execute : String → A → Option A) where
  abbrev pub IsApplied : List Row → File → Type 0
  IsApplied rows file = hash_at (id_of file) rows ≡ some (sha256 file.content)

  inserted-ok :
      (file : File) (executed : Option A) (there : Option ℕ) (db db' : Database A)
      → hash_at (id_of file) db.migrations ≡ there
      → inserted sha256 execute file executed there db ≡ (ok tt, db')
      → IsApplied db'.migrations file × Extends db.migrations db'.migrations
  inserted-ok file none there db db' t h = absurd (cc)
  inserted-ok file (some schema) (some hash) db db' t h = absurd (cc)
  inserted-ok file (some schema) none db db' t h =
      let rows : (row_of sha256 execute file ∷ db.migrations) ≡ db'.migrations =
        ap (λ r. r.1.migrations) h in
      (rw (sym rows) (ground arith), λ id hash k. rw (sym rows) (ground (arith, k, t)))

  step-ok :
      (seen : Option ℕ) (file : File) (db db' : Database A)
      → ((hash : ℕ) → seen ≡ some hash → hash_at (id_of file) db.migrations ≡ some hash)
      → run_unless sha256 execute seen file db ≡ (ok tt, db')
      → IsApplied db'.migrations file × Extends db.migrations db'.migrations
  unfolding transaction
  step-ok none file db db' known h =
      inserted-ok file (execute file.content db.schema) (hash_at (id_of file) db.migrations) db db'
        refl h
  step-ok (some hash) file db db' known h = elim (Bool-cases (hash == sha256 file.content)) [
    | inr edited ↦ absurd (cc (rw edited at h))
    | inl same ↦
        let rows : db.migrations ≡ db'.migrations = ap (λ r. r.1.migrations) (rw same at h) in
        (rw (sym rows) (ground (arith, known hash refl, same)), rw (sym rows) (λ id hash k. k))
  ]

  -- A chain that ends well has gone through its first step.
  after-ok :
      (r : Result ⊤ × Database A) (f : Database A → Result ⊤ × Database A) (db' : Database A)
      → after sha256 execute r f ≡ (ok tt, db')
      → (mid : Database A) × (r ≡ (ok tt, mid)) × (f mid ≡ (ok tt, db'))
  after-ok (ok a, db) f db' h = (db, refl, h)
  after-ok (err e, db) f db' h = absurd (cc)

  run_files-ok :
      (applied : List Row) (files : List File) (db db' : Database A)
      → Extends applied db.migrations
      → run_files sha256 execute applied files db ≡ (ok tt, db')
      → All (IsApplied db'.migrations) files × Extends db.migrations db'.migrations
  unfolding run_files
  run_files-ok applied [] db db' known h =
      let rows : db.migrations ≡ db'.migrations = ap (λ r. r.1.migrations) h in
      (tt, rw (sym rows) (λ id hash k. k))
  run_files-ok applied (file ∷ files) db db' known h =
      let (mid, first, rest) =
        after-ok (run_unless sha256 execute (hash_at (id_of file) applied) file db)
          (run_files sha256 execute applied files) db' h in
      let (done, grown) =
        step-ok (hash_at (id_of file) applied) file db mid (known (id_of file)) first in
      let (all, more) =
        run_files-ok applied files mid db' (λ id hash k. grown id hash (known id hash k)) rest in
      ((more _ _ done, all), λ id hash k. more id hash (grown id hash k))

  again :
      (applied : List Row) (files : List File) (db : Database A)
      → All (IsApplied applied) files
      → run_files sha256 execute applied files db ≡ (ok tt, db)
  unfolding run_files
  again applied [] db h = refl
  again applied (file ∷ files) db (done, all) =
      rw done (rw (same_number (sha256 file.content)) (again applied files db all))

  -- After a run that ends without raising, a run on the same directory changes nothing and ends
  -- without raising, whatever the schema was and whatever the files do to it.
  pub migrate-again :
      (name_before : String → String → Bool) (files : List File) (db db' : Database A)
      → migrate sha256 execute name_before files db ≡ (ok tt, db')
      → migrate sha256 execute name_before files db' ≡ (ok tt, db')
  unfolding migrate
  migrate-again name_before files db db' h =
      let chosen =
        sort_by (λ f g. name_before f.name g.name) (filter (λ f. is_migration f.name) files) in
      again db'.migrations chosen db'
        (run_files-ok db.migrations chosen db db' (λ id hash k. k) h).0
