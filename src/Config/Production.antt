-- ===== src/Config/Production.antt =====
-- What env.ts lets through.
use Prim.Native.String.{String}
use text.Mathlib.Text.{◌==◌ as str_eq}
use text.Mathlib.TextEquality.{eq_iff}
use mathlib.Core.Path.{subst}
use backend_java_spring_boot.Prelude.{
  ◌≡◌, ◌≢◌, refl, sym, ◌∙◌, ◌⊎◌, inl, inr, not, Bool-cases, true, false, Option, none, some, leb,
  arith,
}
use backend_java_spring_boot.Json.{Zod, check}
use backend_java_spring_boot.Controllers.{Settings}
use backend_java_spring_boot.Config.Wiring.{config_of, settings_of, signer_of}
use backend_java_spring_boot.Auth.Signer.{SignerConfig}
use backend_java_spring_boot.Config.{
  ℤ, Env, Variables, variable, or_default, ◌>>=◌, coerce_boolean, env_schema, load_env,
  is_production, unsafe, dev_access_secret, dev_refresh_pepper,
}

-- What holds of a value where there is one.
data Holds {A : Type 0} (P : A → Type 0) : Option A → Type 0 where
  nothing_holds : Holds P none
  value_holds : {a : A} → P a → Holds P (some a)

bind-Holds :
    {A B : Type 0} (P : B → Type 0) (o : Option A) (f : A → Option B)
    → ((a : A) → o ≡ some a → Holds P (f a))
    → Holds P (o >>= f)
unfolding ◌>>=◌
bind-Holds P none f h = nothing_holds
bind-Holds P (some a) f h = h a refl

held : {A : Type 0} (P : A → Type 0) (a : A) (o : Option A) → Holds P o → o ≡ some a → P a
held P a none nothing_holds e = ground arith
held P a (some b) (value_holds p) e = subst P (ground arith) p

checked :
    (o : Option Env) (env : Env)
    → (o >>= λ e. check (not (unsafe e)) e) ≡ some env
    → (o ≡ some env) × (unsafe env ≡ false)
unfolding ◌>>=◌
checked none env h = ground arith
checked (some e) env h = elim (Bool-cases (unsafe e)) [
  | inl bad ↦ ground (arith, rw bad at h)
  | inr fine ↦
      let same : some e ≡ some env = rw fine at h in
      let eq : e ≡ env = ground arith in (same, rw (sym eq) fine)
]

module _ (zod : Zod) (integer_of : String → Option ℤ) where
  -- The default, or at least 32 characters
  abbrev IsSecret : String → String → Type 0
  IsSecret value s = (s ≡ value) ⊎ (leb 32 (zod.length_of s) ≡ true)

  given-IsSecret :
      (value s : String) (raw : Option String)
      → or_default value (λ s'. check (leb 32 (zod.length_of s')) s') raw ≡ some s
      → IsSecret value s
  given-IsSecret value s none h = inl (ground arith)
  given-IsSecret value s (some raw) h = inr (ground arith)

  -- What the schema makes of the variables
  abbrev IsSound : Variables → Env → Type 0
  IsSound vars env =
      IsSecret dev_access_secret env.jwt_access_secret
      × IsSecret dev_refresh_pepper env.jwt_refresh_pepper
      × (or_default true (λ s. some (coerce_boolean s)) (variable "S3_FORCE_PATH_STYLE" vars)
          ≡ some env.s3_force_path_style)

  schema-IsSound : (vars : Variables) → Holds (IsSound vars) (env_schema zod integer_of vars)
  unfolding env_schema
  schema-IsSound vars = bind-Holds _ _ _ λ v e. bind-Holds _ _ _ λ v e. bind-Holds _ _ _ λ v e.
      bind-Holds _ _ _ λ v e. bind-Holds _ _ _ λ v e. bind-Holds _ _ _ λ access access_h.
        bind-Holds _ _ _ λ pepper pepper_h. bind-Holds _ _ _ λ v e. bind-Holds _ _ _ λ v e.
          bind-Holds _ _ _ λ v e. bind-Holds _ _ _ λ v e. bind-Holds _ _ _ λ v e.
            bind-Holds _ _ _ λ v e. bind-Holds _ _ _ λ v e. bind-Holds _ _ _ λ v e.
              bind-Holds _ _ _ λ v e. bind-Holds _ _ _ λ v e. bind-Holds _ _ _ λ v e.
                bind-Holds _ _ _ λ v e. bind-Holds _ _ _ λ v e. bind-Holds _ _ _ λ v e.
                  bind-Holds _ _ _ λ v e. bind-Holds _ _ _ λ v e. bind-Holds _ _ _ λ v e.
                    bind-Holds _ _ _ λ v e. bind-Holds _ _ _ λ v style_h. bind-Holds _ _ _ λ v e.
                      bind-Holds _ _ _ λ v e. bind-Holds _ _ _ λ v e. bind-Holds _ _ _ λ v e.
                        bind-Holds _ _ _ λ v e. bind-Holds _ _ _ λ v e. value_holds (
                          given-IsSecret dev_access_secret access _ access_h,
                          given-IsSecret dev_refresh_pepper pepper _ pepper_h,
                          style_h,
                        )

  loaded :
      (vars : Variables) (env : Env)
      → load_env zod integer_of vars ≡ some env
      → (env_schema zod integer_of vars ≡ some env) × (unsafe env ≡ false)
  unfolding load_env
  loaded vars env h = checked (env_schema zod integer_of vars) env h

  wired :
      (env : Env) (set : Settings)
      → settings_of env ≡ some set
      → (set.production ≡ is_production env.node_env)
        × (set.config.refresh_pepper ≡ env.jwt_refresh_pepper)
  unfolding settings_of config_of ◌>>=◌
  wired env set h = ground arith

  given-IsSound :
      (vars : Variables) (env : Env) → load_env zod integer_of vars ≡ some env → IsSound vars env
  given-IsSound vars env h =
      held (IsSound vars) env (env_schema zod integer_of vars) (schema-IsSound vars)
        (loaded vars env h).0

  not_the_default :
      (value s : String)
      → IsSecret value s
      → str_eq s value ≡ false
      → (leb 32 (zod.length_of s) ≡ true) × (s ≢ value)
  not_the_default value s (inl same) other = ground (arith, (eq_iff s value).1 same)
  not_the_default value s (inr long) other = (long, λ e. ground (arith, (eq_iff s value).1 e))

  secrets_changed :
      (env : Env)
      → unsafe env ≡ false
      → is_production env.node_env ≡ true
      → (str_eq env.jwt_access_secret dev_access_secret ≡ false)
        × (str_eq env.jwt_refresh_pepper dev_refresh_pepper ≡ false)
  secrets_changed env safe production = ground arith

  signed_with :
      (env : Env) (signer : SignerConfig)
      → signer_of env ≡ some signer
      → signer.access_secret ≡ env.jwt_access_secret
  unfolding signer_of ◌>>=◌
  signed_with env signer h = ground arith

  -- A server that runs in production, on the settings that its variables give, none of whose
  -- numbers is negative, signs its access tokens with a secret and hashes its refresh tokens with a pepper that both have 32 characters
  -- or more and are not the ones that stand in the repository.
  pub production_safe :
      (vars : Variables) (env : Env) (set : Settings) (signer : SignerConfig)
      → load_env zod integer_of vars ≡ some env
      → settings_of env ≡ some set
      → signer_of env ≡ some signer
      → set.production ≡ true
      → (leb 32 (zod.length_of signer.access_secret) ≡ true)
        × (signer.access_secret ≢ dev_access_secret)
        × (leb 32 (zod.length_of set.config.refresh_pepper) ≡ true)
        × (set.config.refresh_pepper ≢ dev_refresh_pepper)
  production_safe vars env set signer h made signs production =
      let (access, pepper, _) = given-IsSound vars env h in
      let (mode, handed) = wired env set made in
      let safe = secrets_changed env (loaded vars env h).1 (sym mode ∙ production) in
      let (long, other) = not_the_default dev_access_secret _ access safe.0 in
      let (long', other') = not_the_default dev_refresh_pepper _ pepper safe.1 in
      rw handed (rw (signed_with env signer signs) (long, other, long', other'))

  -- Where S3_FORCE_PATH_STYLE is given, every text of it but the empty one turns the path style on,
  -- "false" and "0" too.
  pub path_style_of_any_text :
      (vars : Variables) (env : Env) (s : String)
      → load_env zod integer_of vars ≡ some env
      → variable "S3_FORCE_PATH_STYLE" vars ≡ some s
      → env.s3_force_path_style ≡ not (str_eq s "")
  path_style_of_any_text vars env s h given =
      let (_, _, style) = given-IsSound vars env h in ground arith
