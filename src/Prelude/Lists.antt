-- ===== src/Prelude/Lists.antt =====
-- Tables as lists of rows: the row tests, selections and updates that the SQL statements make.
use Prim.Native.Nat.{ℕ, suc, ◌+◌, ◌≤◌}
use mathlib.Core.Path.{◌≡◌, refl}
use mathlib.Core.Bool.{Bool, true, false, not, ◌&&◌, ◌||◌}
use mathlib.Core.Option.{Option, none, some}
use mathlib.Core.List.{List, [], ◌∷◌}
use native.Mathlib.Omega.{arith}
use backend_java_spring_boot.Prelude.Tests.{if◌then◌else◌}

module _ {ℓ} {A : Type ℓ} where
  abbrev pub length : List A → ℕ
  length [] = 0
  length (x ∷ xs) = suc (length xs)

  -- `SELECT * FROM t WHERE p`, the first row
  abbrev pub find? : (A → Bool) → List A → Option A
  find? p [] = none
  find? p (x ∷ xs) = if p x then some x else find? p xs

  -- `SELECT * FROM t WHERE p`
  abbrev pub filter : (A → Bool) → List A → List A
  filter p [] = []
  filter p (x ∷ xs) = let rest = filter p xs in if p x then x ∷ rest else rest

  -- `DELETE FROM t WHERE p`
  abbrev pub remove : (A → Bool) → List A → List A
  remove p xs = filter (λ x. not (p x)) xs

  -- `UPDATE t SET f WHERE p`
  abbrev pub update : (A → Bool) → (A → A) → List A → List A
  update p f [] = []
  update p f (x ∷ xs) = (if p x then f x else x) ∷ update p f xs

  abbrev pub any : (A → Bool) → List A → Bool
  any p [] = false
  any p (x ∷ xs) = p x || any p xs

  -- how many rows pass the test
  abbrev pub count : (A → Bool) → List A → ℕ
  count p [] = 0
  count p (x ∷ xs) = (if p x then 1 else 0) + count p xs

module _ {ℓ κ} {A : Type ℓ} where
  abbrev pub All : (A → Type κ) → List A → Type κ
  All P [] = Unit
  All P (x ∷ xs) = P x × All P xs

module _ {ℓ} {A : Type ℓ} where
  pub any-false→count : (p : A → Bool) (xs : List A) → any p xs ≡ false → count p xs ≡ 0
  any-false→count p [] h = refl
  any-false→count p (x ∷ xs) h = ground (arith, any-false→count p xs)

  pub any-of_find? :
      (p q : A → Bool) (xs : List A) (x : A) → find? p xs ≡ some x → q x ≡ true → any q xs ≡ true
  any-of_find? p q [] x h k = ground arith
  any-of_find? p q (y ∷ ys) x h k = ground (arith, any-of_find? p q ys x)

  pub find?-test : (p : A → Bool) (xs : List A) (x : A) → find? p xs ≡ some x → p x ≡ true
  find?-test p [] x h = ground arith
  find?-test p (y ∷ ys) x h = ground (arith, find?-test p ys x)

  -- A row that is found counts.
  pub count-of_find? :
      (p q : A → Bool) (xs : List A) (x : A) → find? p xs ≡ some x → q x ≡ true → 1 ≤ count q xs
  count-of_find? p q [] x h k = ground arith
  count-of_find? p q (y ∷ ys) x h k = ground (arith, count-of_find? p q ys x)

  pub find?-none→count : (p : A → Bool) (xs : List A) → find? p xs ≡ none → count p xs ≡ 0
  find?-none→count p [] h = refl
  find?-none→count p (x ∷ xs) h = ground (arith, find?-none→count p xs)

  -- An update that leaves the test alone leaves the count alone.
  pub count-update :
      (p q : A → Bool) (f : A → A) (xs : List A)
      → ((x : A) → p (f x) ≡ p x)
      → count p (update q f xs) ≡ count p xs
  count-update p q f [] h = refl
  count-update p q f (x ∷ xs) h = ground (arith, count-update p q f xs, h x)

  -- An update after which no row passes the test takes the rows that it meets out of the count.
  pub count-update_clear :
      (p q : A → Bool) (f : A → A) (xs : List A)
      → ((x : A) → p (f x) ≡ false)
      → count p (update q f xs) + count (λ x. p x && q x) xs ≡ count p xs
  count-update_clear p q f [] h = refl
  count-update_clear p q f (x ∷ xs) h = ground (arith, count-update_clear p q f xs, h x)

  pub count-filter_le : (p q : A → Bool) (xs : List A) → count p (filter q xs) ≤ count p xs
  count-filter_le p q [] = omega arith
  count-filter_le p q (x ∷ xs) = ground (arith, count-filter_le p q xs)

  -- Where every row that passes `p` passes `q`, no more rows pass `p` than `q`.
  pub count_mono :
      (p q : A → Bool) (xs : List A) → ((x : A) → p x ≡ true → q x ≡ true) → count p xs ≤ count q xs
  count_mono p q [] h = omega arith
  count_mono p q (x ∷ xs) h = ground (arith, count_mono p q xs, h x)

  -- What an update of the rows under `q` makes of one row.
  abbrev pub updated : (A → Bool) → (A → A) → A → A
  updated q f x = if q x then f x else x

  -- An update that leaves the test alone finds the same row, updated.
  pub find?-update :
      (p q : A → Bool) (f : A → A) (xs : List A) (c : A)
      → ((x : A) → p (f x) ≡ p x)
      → find? p xs ≡ some c
      → find? p (update q f xs) ≡ some (updated q f c)
  find?-update p q f [] c h e = ground arith
  find?-update p q f (x ∷ xs) c h e = ground (arith, find?-update p q f xs c h, h x)

  pub find?-update-none :
      (p q : A → Bool) (f : A → A) (xs : List A)
      → ((x : A) → p (f x) ≡ p x)
      → find? p xs ≡ none
      → find? p (update q f xs) ≡ none
  find?-update-none p q f [] h e = refl
  find?-update-none p q f (x ∷ xs) h e = ground (arith, find?-update-none p q f xs h, h x)

  -- After an update that takes every row it meets out of the test, and meets every row of the
  -- test, none is left.
  pub count-update_zero :
      (p q : A → Bool) (f : A → A) (xs : List A)
      → ((x : A) → p (f x) ≡ false)
      → ((x : A) → p x ≡ true → q x ≡ true)
      → count p (update q f xs) ≡ 0
  count-update_zero p q f [] h k = refl
  count-update_zero p q f (x ∷ xs) h k = ground (arith, count-update_zero p q f xs, h x, k x)

  -- An update that meets no row of the test and makes none.
  pub count-update_other :
      (p q : A → Bool) (f : A → A) (xs : List A)
      → ((x : A) → q x ≡ true → p (f x) ≡ p x)
      → count p (update q f xs) ≡ count p xs
  count-update_other p q f [] h = refl
  count-update_other p q f (x ∷ xs) h = ground (arith, count-update_other p q f xs, h x)

  pub any-false-of_find? :
      (p q : A → Bool) (xs : List A) (c : A) → any q xs ≡ false → find? p xs ≡ some c → q c ≡ false
  any-false-of_find? p q [] c h e = ground arith
  any-false-of_find? p q (x ∷ xs) c h e = ground (arith, any-false-of_find? p q xs c)

  -- An update that meets no row.
  pub update-none :
      (p : A → Bool) (f : A → A) (xs : List A) → find? p xs ≡ none → update p f xs ≡ xs
  update-none p f [] h = refl
  update-none p f (x ∷ xs) h = ground (arith, update-none p f xs)

  -- After an update that takes the rows that it meets out of a narrower test, no row passes it.
  pub find?-update_clear :
      (p q : A → Bool) (f : A → A) (xs : List A)
      → ((x : A) → p (f x) ≡ false)
      → ((x : A) → p x ≡ true → q x ≡ true)
      → find? p (update q f xs) ≡ none
  find?-update_clear p q f [] h k = refl
  find?-update_clear p q f (x ∷ xs) h k = ground (arith, find?-update_clear p q f xs h k, h x, k x)

  pub find?-none→any : (p : A → Bool) (xs : List A) → find? p xs ≡ none → any p xs ≡ false
  find?-none→any p [] h = refl
  find?-none→any p (x ∷ xs) h = ground (arith, find?-none→any p xs)

  pub find?-some→any : (p : A → Bool) (xs : List A) (x : A) → find? p xs ≡ some x → any p xs ≡ true
  find?-some→any p [] x h = ground arith
  find?-some→any p (y ∷ ys) x h = ground (arith, find?-some→any p ys x)

  -- Nothing is found once the rows of the test are deleted.
  pub find?-remove : (p : A → Bool) (xs : List A) → find? p (remove p xs) ≡ none
  find?-remove p [] = refl
  find?-remove p (x ∷ xs) = ground (arith, find?-remove p xs)

  -- Deleting rows outside the test leaves what is found.
  pub find?-remove_other :
      (p q : A → Bool) (xs : List A)
      → ((x : A) → p x ≡ true → q x ≡ false)
      → find? p (remove q xs) ≡ find? p xs
  find?-remove_other p q [] h = refl
  find?-remove_other p q (x ∷ xs) h = ground (arith, find?-remove_other p q xs, h x)

  pub count-remove_zero :
      (p q : A → Bool) (xs : List A)
      → ((x : A) → p x ≡ true → q x ≡ true)
      → count p (remove q xs) ≡ 0
  count-remove_zero p q [] h = refl
  count-remove_zero p q (x ∷ xs) h = ground (arith, count-remove_zero p q xs, h x)

  pub count-remove_other :
      (p q : A → Bool) (xs : List A)
      → ((x : A) → p x ≡ true → q x ≡ false)
      → count p (remove q xs) ≡ count p xs
  count-remove_other p q [] h = refl
  count-remove_other p q (x ∷ xs) h = ground (arith, count-remove_other p q xs, h x)
