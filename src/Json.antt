-- ===== src/Json.antt =====
-- JSON values, and the zod combinators that src/application/dtos uses.
use Prim.Native.String.{String}
use text.Mathlib.Text.{◌==◌ as str_eq}
use backend_java_spring_boot.Prelude.{
  ℕ, ◌&&◌, Bool, true, false, Option, none, some, List, [], ◌∷◌, leb, or_else, map_some,
  if◌then◌else◌,
}
use backend_java_spring_boot.Domain.{GivenId}
pub mod Schemas

-- A number is a natural number or any other one.
mutual
  pub data Json : Type 0 where
    null : Json
    bool : Bool → Json
    num : ℕ → Json
    other_number : Json
    str : String → Json
    arr : Items → Json
    obj : Fields → Json

  pub data Items : Type 0 where
    nil : Items
    cons : Json → Items → Items

  pub data Fields : Type 0 where
    end : Fields
    field : String → Json → Fields → Fields

-- What zod and the string methods of JavaScript compute.
pub record Zod : Type 0 where
  -- `s.length`
  pub length_of : String → ℕ
  pub trim : String → String
  -- the checks of `.email()` and `.url()`
  pub is_email : String → Bool
  pub is_url : String → Bool
  -- the id of a text that `.uuid()` accepts, and the number of such a text itself
  pub uuid_of : String → Option ℕ
  pub number_of_text : String → ℕ
  -- a text that `z.coerce.number().int()` makes a natural number of
  pub integer_of : String → Option ℕ
  -- the issues of a schema on a value or on `undefined`, as `validate` joins them
  pub issues : String → Option Json → String

infixl 5 ◌>>=◌
abbrev pub ◌>>=◌ : {A B : Type 0} → Option A → (A → Option B) → Option B
none >>= f = none
(some a) >>= f = f a

-- The last of the fields of a name, as `JSON.parse` keeps it; `none` is `undefined`.
abbrev pub lookup : String → Fields → Option Json
lookup name end = none
lookup name (field k v rest) = or_else (lookup name rest) (if str_eq k name then some v else none)

-- `z.object`
abbrev pub object : Json → Option Fields
object (obj fields) = some fields
object _ = none

-- `z.string()`
abbrev pub string : Option Json → Option String
string (some (str s)) = some s
string _ = none

-- `z.number().int()`
abbrev pub natural : Option Json → Option ℕ
natural (some (num n)) = some n
natural _ = none

-- A check or its failure.
abbrev pub check : {A : Type 0} → Bool → A → Option A
check ok a = if ok then some a else none

-- `.optional()`
abbrev pub optional : {A : Type 0} → (Option Json → Option A) → Option Json → Option (Option A)
optional p none = some none
optional p (some j) = map_some some (p (some j))

-- `.nullable()`
abbrev pub nullable : {A : Type 0} → (Option Json → Option A) → Option Json → Option (Option A)
nullable p (some null) = some none
nullable p j = map_some some (p j)

-- `.default(a)`
abbrev pub default : {A : Type 0} → A → (Option Json → Option A) → Option Json → Option A
default a p none = some a
default a p (some j) = p (some j)

module _ (zod : Zod) where
  -- `.min(lo).max(hi)` of a text
  abbrev pub sized : (lo hi : ℕ) → Option Json → Option String
  sized lo hi j = string j >>= λ s. check (leb lo (zod.length_of s) && leb (zod.length_of s) hi) s

  -- `.min(lo)` of a text
  abbrev pub at_least : ℕ → Option Json → Option String
  at_least lo j = string j >>= λ s. check (leb lo (zod.length_of s)) s

  -- `.max(hi)` of a text
  abbrev pub at_most : ℕ → Option Json → Option String
  at_most hi j = string j >>= λ s. check (leb (zod.length_of s) hi) s

  -- `.trim()` after the checks: what is stored is trimmed, what was checked is not.
  abbrev pub then_trim : Option String → Option String
  then_trim s = map_some zod.trim s

  abbrev pub email : Option Json → Option String
  email j = string j >>= λ s. check (zod.is_email s) s

  abbrev pub uuid : Option Json → Option ℕ
  uuid j = string j >>= zod.uuid_of

  abbrev pub uuids_in : Items → Option (List ℕ)
  uuids_in nil = some []
  uuids_in (cons j js) = uuid (some j) >>= λ id. uuids_in js >>= λ ids. some (id ∷ ids)

  -- `.uuid()`, where the code goes on to compare the texts of ids
  abbrev pub given_id : Option Json → Option GivenId
  given_id j = string j >>= λ s.
      zod.uuid_of s >>= λ id. some (record { id = id; text = zod.number_of_text s })

  abbrev pub given_ids_in : Items → Option (List GivenId)
  given_ids_in nil = some []
  given_ids_in (cons j js) = given_id (some j) >>= λ id. given_ids_in js >>= λ ids. some (id ∷ ids)

  abbrev pub given_ids : Option Json → Option (List GivenId)
  given_ids (some (arr items)) = given_ids_in items
  given_ids _ = none

  -- `z.array(z.string().uuid())`
  abbrev pub uuids : Option Json → Option (List ℕ)
  uuids (some (arr items)) = uuids_in items
  uuids _ = none
