-- ===== src/Prelude/Sorting.antt =====
-- ORDER BY and LIMIT: insertion sort by a test, and the first rows.
use Prim.Native.Nat.{ℕ, zero, suc, ◌≤◌, ◌<◌}
use mathlib.Core.Path.{◌≡◌, refl}
use mathlib.Core.Bool.{Bool, true}
use mathlib.Core.List.{List, [], ◌∷◌}
use native.Mathlib.Omega.{arith}
use backend_java_spring_boot.Prelude.Tests.{if◌then◌else◌, ltb, Bool-cases}
use backend_java_spring_boot.Prelude.Lists.{All, count, filter, length}
use mathlib.Core.Logic.{inl, inr}

module _ {ℓ} {A : Type ℓ} where
  -- `LIMIT n`
  abbrev pub take : ℕ → List A → List A
  take zero xs = []
  take (suc n) [] = []
  take (suc n) (x ∷ xs) = x ∷ take n xs

  -- The row goes before the first one that it precedes.
  abbrev pub insert_by : (A → A → Bool) → A → List A → List A
  insert_by before x [] = x ∷ []
  insert_by before x (y ∷ ys) = if before x y then x ∷ y ∷ ys else y ∷ insert_by before x ys

  -- `ORDER BY`
  abbrev pub sort_by : (A → A → Bool) → List A → List A
  sort_by before [] = []
  sort_by before (x ∷ xs) = insert_by before x (sort_by before xs)

  pub length-take : (n : ℕ) (xs : List A) → length (take n xs) ≤ n
  length-take zero xs = omega arith
  length-take (suc n) [] = omega arith
  length-take (suc n) (x ∷ xs) = omega (arith, length-take n xs)

  pub count-take_le : (p : A → Bool) (n : ℕ) (xs : List A) → count p (take n xs) ≤ count p xs
  count-take_le p zero xs = omega arith
  count-take_le p (suc n) [] = omega arith
  count-take_le p (suc n) (x ∷ xs) = omega (arith, count-take_le p n xs)

  pub count-insert_by :
      (p : A → Bool) (before : A → A → Bool) (x : A) (xs : List A)
      → count p (insert_by before x xs) ≡ count p (x ∷ xs)
  count-insert_by p before x [] = refl
  count-insert_by p before x (y ∷ ys) = ground (arith, count-insert_by p before x ys)

  -- Sorting keeps the rows, as often as they occur.
  pub count-sort_by :
      (p : A → Bool) (before : A → A → Bool) (xs : List A)
      → count p (sort_by before xs) ≡ count p xs
  count-sort_by p before [] = refl
  count-sort_by p before (x ∷ xs) =
      ground (arith, count-insert_by p before x (sort_by before xs), count-sort_by p before xs)

module _ {ℓ κ} {A : Type ℓ} (P : A → Type κ) where
  pub All-take : (n : ℕ) (xs : List A) → All P xs → All P (take n xs)
  All-take zero xs h = tt
  All-take (suc n) [] h = tt
  All-take (suc n) (x ∷ xs) h = (h.0, All-take n xs h.1)

  pub All-insert_by :
      (before : A → A → Bool) (x : A) (xs : List A) → P x → All P xs → All P (insert_by before x xs)
  All-insert_by before x [] p h = (p, tt)
  All-insert_by before x (y ∷ ys) p h = elim (Bool-cases (before x y)) [
    | inl e ↦ rw e (p, h)
    | inr e ↦ rw e (h.0, All-insert_by before x ys p h.1)
  ]

  pub All-sort_by : (before : A → A → Bool) (xs : List A) → All P xs → All P (sort_by before xs)
  All-sort_by before [] h = tt
  All-sort_by before (x ∷ xs) h = All-insert_by before x _ h.0 (All-sort_by before xs h.1)

  pub All-map {μ} : {Q : A → Type μ} (xs : List A) → ((x : A) → P x → Q x) → All P xs → All Q xs
  All-map [] f h = tt
  All-map (x ∷ xs) f h = (f x h.0, All-map xs f h.1)

  -- The rows that a test keeps.
  pub All-filter : (p : A → Bool) (xs : List A) → ((x : A) → p x ≡ true → P x) → All P (filter p xs)
  All-filter p [] f = tt
  All-filter p (x ∷ xs) f = elim (Bool-cases (p x)) [
    | inl e ↦ rw e (f x e, All-filter p xs f)
    | inr e ↦ rw e (All-filter p xs f)
  ]

-- Rows with numbers that fall along the list.
module _ {ℓ} {A : Type ℓ} (key : A → ℕ) where
  abbrev pub newest_first : A → A → Bool
  newest_first x y = ltb (key y) (key x)

  abbrev pub IsFalling : List A → Type 0
  IsFalling [] = Unit
  IsFalling (x ∷ xs) = All (λ y. key y ≤ key x) xs × IsFalling xs

  insert_by-IsFalling :
      (x : A) (xs : List A) → IsFalling xs → IsFalling (insert_by newest_first x xs)
  insert_by-IsFalling x [] h = (tt, tt)
  insert_by-IsFalling x (y ∷ ys) h = elim (Bool-cases (newest_first x y)) [
    | inl e ↦
        let lt : key y < key x = ground arith in
        rw e ((omega arith, All-map (λ z. key z ≤ key y) ys (λ z k. omega arith) h.0), h)
    | inr e ↦
        let le : key x ≤ key y = ground arith in
        rw e (
          All-insert_by (λ z. key z ≤ key y) newest_first x ys le h.0,
          insert_by-IsFalling x ys h.1,
        )
  ]

  pub sort_by-IsFalling : (xs : List A) → IsFalling (sort_by newest_first xs)
  sort_by-IsFalling [] = tt
  sort_by-IsFalling (x ∷ xs) = insert_by-IsFalling x _ (sort_by-IsFalling xs)

  pub take-IsFalling : (n : ℕ) (xs : List A) → IsFalling xs → IsFalling (take n xs)
  take-IsFalling zero xs h = tt
  take-IsFalling (suc n) [] h = tt
  take-IsFalling (suc n) (x ∷ xs) h =
      (All-take (λ y. key y ≤ key x) n xs h.0, take-IsFalling n xs h.1)
