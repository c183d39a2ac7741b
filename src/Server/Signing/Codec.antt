-- ===== src/Server/Signing/Codec.antt =====
-- A signer for the runs of the tests that keeps the promises of jose: a token is its secret, its
-- claims and its end, written one after the other.
use Prim.Native.Char.{Char, code}
use Prim.Native.String.{String}
use text.Mathlib.Text.{◌==◌ as str_eq}
use text.Mathlib.TextEquality.{eq_iff}
use text.Mathlib.TextLemmas.{cons≢nil}
use text.Mathlib.TextPositions.{eq_refl}
use backend_java_spring_boot.Prelude.{
  ℕ, zero, suc, ◌≡◌, refl, ap, false, Option, none, some, map_some, ltb, ◌==◌, if◌then◌else◌, arith,
}
use backend_java_spring_boot.Json.{check, ◌>>=◌}
use backend_java_spring_boot.Auth.Signer.{Jose, IsJose, Payload}

abbrev mark : Char
mark = "1"

abbrev stop : Char
stop = "0"

-- A text, with a mark before each character, and what follows it
abbrev pub written : String → String → String
written String.[] rest = String.◌∷◌ stop rest
written (String.◌∷◌ c s) rest = String.◌∷◌ mark (String.◌∷◌ c (written s rest))

abbrev put : Char → String × String → String × String
put c (s, rest) = (String.◌∷◌ c s, rest)

abbrev pub read : String → Option (String × String)
read String.[] = none
read (String.◌∷◌ a String.[]) = if code a == 48 then some ("", "") else none
read (String.◌∷◌ a (String.◌∷◌ c s)) =
    if code a == 48 then some ("", String.◌∷◌ c s) else map_some (put c) (read s)

abbrev pub tally : ℕ → String
tally zero = ""
tally (suc n) = String.◌∷◌ mark (tally n)

abbrev pub tallied : String → ℕ
tallied String.[] = zero
tallied (String.◌∷◌ c s) = suc (tallied s)

pub tallied-tally : (n : ℕ) → tallied (tally n) ≡ n
tallied-tally zero = refl
tallied-tally (suc n) = ap suc (tallied-tally n)

read_rest : (rest : String) → read (String.◌∷◌ stop rest) ≡ some ("", rest)
read_rest String.[] = refl
read_rest (String.◌∷◌ c s) = refl

read-written : (s rest : String) → read (written s rest) ≡ some (s, rest)
read-written String.[] rest = read_rest rest
read-written (String.◌∷◌ c s) rest = rw (read-written s rest) refl

abbrev payload : (sub jti : String) → Payload
payload sub jti = record { sub = some sub; jti = some jti }

abbrev pub codec : Jose
codec = record {
  sign = λ secret sub jti issued_at expires_at.
      written secret (written sub (written jti (tally expires_at)));
  verify = λ secret token now. read token >>= λ a. check (str_eq a.0 secret) a.1 >>= λ token.
      read token >>= λ b. read b.1 >>= λ c. check (ltb now (tallied c.1)) (payload b.0 c.0);
}

codec-verify :
    (secret sub jti : String) (issued_at expires_at now : ℕ)
    → codec.verify secret (codec.sign secret sub jti issued_at expires_at) now
      ≡ check (ltb now expires_at) (payload sub jti)
codec-verify secret sub jti issued_at expires_at now =
    rw (read-written secret (written sub (written jti (tally expires_at)))) (
      rw (eq_refl secret) (
        rw (read-written sub (written jti (tally expires_at)))
          (rw (read-written jti (tally expires_at)) (rw (tallied-tally expires_at) refl))))

cons-filled : (c : Char) (s : String) → str_eq (String.◌∷◌ c s) "" ≡ false
cons-filled c s = ground (arith, (eq_iff (String.◌∷◌ c s) "").0, cons≢nil {x = c} {xs = s})

written-filled : (s rest : String) → str_eq (written s rest) "" ≡ false
written-filled String.[] rest = cons-filled stop rest
written-filled (String.◌∷◌ c s) rest = cons-filled mark (String.◌∷◌ c (written s rest))

pub codec-IsJose : IsJose codec
codec-IsJose = record {
  filled = λ secret sub jti issued_at expires_at. written-filled secret _;
  accepts = λ secret sub jti issued_at expires_at now h.
      rw (codec-verify secret sub jti issued_at expires_at now) (ground arith);
  expires = λ secret sub jti issued_at expires_at now h.
      rw (codec-verify secret sub jti issued_at expires_at now) (ground arith);
}
