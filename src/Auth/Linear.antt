-- ===== src/Auth/Linear.antt =====
-- The table of refresh tokens with one live token in a family, and the changes that keep it so.
use backend_java_spring_boot.Prelude.{
  ℕ, ◌≤◌, ◌≡◌, refl, Bool, true, false, ◌&&◌, ◌||◌, some, List, [], ◌∷◌, count, any, find?, update,
  arith, ◌==◌, count-update, count-update_clear, count-of_find?, ◌⊎◌, Bool-cases, inl, inr,
}
use backend_java_spring_boot.Domain.{RefreshToken, RefreshTokenInsert, fault, ok, err}
use backend_java_spring_boot.World.{World}
use backend_java_spring_boot.Store.RefreshTokens.{insert, is_live, inserted, insert_allowed}

abbrev pub with_id : ℕ → List RefreshToken → ℕ
with_id id = count (λ t. t.id == id)

abbrev pub with_hash : ℕ → List RefreshToken → ℕ
with_hash hash = count (λ t. t.token_hash == hash)

abbrev pub live_in : ℕ → List RefreshToken → ℕ
live_in family = count (λ t. (t.family_id == family) && is_live t)

pub record AreLinear (ts : List RefreshToken) : Type 0 where
  pub ids : (i : ℕ) → with_id i ts ≤ 1
  pub hashes : (h : ℕ) → with_hash h ts ≤ 1
  pub live : (f : ℕ) → live_in f ts ≤ 1

-- What the insert checks, as counts.
pub fresh_id :
    (i h : ℕ) (ts : List RefreshToken)
    → any (λ t. (t.id == i) || (t.token_hash == h)) ts ≡ false
    → with_id i ts ≡ 0
fresh_id i h [] e = refl
fresh_id i h (t ∷ ts) e = ground (arith, fresh_id i h ts)

pub fresh_hash :
    (i h : ℕ) (ts : List RefreshToken)
    → any (λ t. (t.id == i) || (t.token_hash == h)) ts ≡ false
    → with_hash h ts ≡ 0
fresh_hash i h [] e = refl
fresh_hash i h (t ∷ ts) e = ground (arith, fresh_hash i h ts)

-- A new row whose id, hash and family are new.
pub cons-AreLinear :
    (t : RefreshToken) (ts : List RefreshToken)
    → AreLinear ts
    → with_id t.id ts ≡ 0
    → with_hash t.token_hash ts ≡ 0
    → live_in t.family_id ts ≡ 0
    → AreLinear (t ∷ ts)
cons-AreLinear t ts h i k l = record {
  ids = λ j. elim (Bool-cases (t.id == j)) [
    | inl e ↦ let same : t.id ≡ j = ground arith in ground (arith, rw same at i)
    | inr e ↦ ground (arith, h.ids j)
  ];
  hashes = λ j. elim (Bool-cases (t.token_hash == j)) [
    | inl e ↦ let same : t.token_hash ≡ j = ground arith in ground (arith, rw same at k)
    | inr e ↦ ground (arith, h.hashes j)
  ];
  live = λ j. elim (Bool-cases (t.family_id == j)) [
    | inl e ↦ let same : t.family_id ≡ j = ground arith in ground (arith, rw same at l)
    | inr e ↦ ground (arith, h.live j)
  ];
}

-- Revoking rows keeps the table linear.
pub update-AreLinear :
    (p : RefreshToken → Bool) (f : RefreshToken → RefreshToken) (ts : List RefreshToken)
    → ((t : RefreshToken) → (f t).id ≡ t.id)
    → ((t : RefreshToken) → (f t).token_hash ≡ t.token_hash)
    → ((t : RefreshToken) → is_live (f t) ≡ false)
    → AreLinear ts
    → AreLinear (update p f ts)
update-AreLinear p f ts i k l h = record {
  ids = λ j. rw (count-update (λ t. t.id == j) p f ts (λ t. rw (i t))) (h.ids j);
  hashes = λ j. rw (count-update (λ t. t.token_hash == j) p f ts (λ t. rw (k t))) (h.hashes j);
  live = λ j. omega (
    arith,
    h.live j,
    count-update_clear (λ t. (t.family_id == j) && is_live t) p f ts (λ t. ground (arith, l t)),
  );
}

-- Rotation: the row of a live token is revoked beside a new row of the same family.
pub rotation-AreLinear :
    (p : RefreshToken → Bool) (f : RefreshToken → RefreshToken) (new c : RefreshToken)
    (ts : List RefreshToken)
    → ((t : RefreshToken) → (f t).id ≡ t.id)
    → ((t : RefreshToken) → (f t).token_hash ≡ t.token_hash)
    → ((t : RefreshToken) → is_live (f t) ≡ false)
    → AreLinear ts
    → with_id new.id ts ≡ 0
    → with_hash new.token_hash ts ≡ 0
    → new.family_id ≡ c.family_id
    → find? p ts ≡ some c
    → is_live c ≡ true
    → AreLinear (update (λ t. t.id == c.id) f (new ∷ ts))
rotation-AreLinear p f new c ts i k l h fresh_i fresh_k same found alive =
    let q : RefreshToken → Bool = λ t. t.id == c.id in
    record {
      ids = λ j.
          rw (count-update (λ t. t.id == j) q f (new ∷ ts) (λ t. rw (i t)))
            (elim (Bool-cases (new.id == j)) [
              | inl e ↦ let e' : new.id ≡ j = ground arith in ground (arith, rw e' at fresh_i)
              | inr e ↦ ground (arith, h.ids j)
            ]);
      hashes = λ j.
          rw (count-update (λ t. t.token_hash == j) q f (new ∷ ts) (λ t. rw (k t)))
            (elim (Bool-cases (new.token_hash == j)) [
              | inl e ↦
                  let e' : new.token_hash ≡ j = ground arith in ground (arith, rw e' at fresh_k)
              | inr e ↦ ground (arith, h.hashes j)
            ]);
      live = λ j.
          let step =
            count-update_clear (λ t. (t.family_id == j) && is_live t) q f (new ∷ ts)
              (λ t. ground (arith, l t)) in
          elim (Bool-cases (c.family_id == j)) [
            | inl e ↦
                let met : 1 ≤ count (λ t. ((t.family_id == j) && is_live t) && q t) ts =
                  count-of_find? p _ ts c found (ground arith) in
                ground (arith, step, h.live j, met)
            | inr e ↦ ground (arith, step, h.live j)
          ];
    }

-- An insert is refused, or its id and its hash are new.
pub insert-cases :
    (db_now : ℕ) (r : RefreshTokenInsert) (w : World)
    → (insert db_now r w ≡ (err fault, w))
      ⊎ ((with_id r.id w.refresh_tokens ≡ 0)
          × (with_hash r.token_hash w.refresh_tokens ≡ 0)
          × (insert db_now r w
              ≡ (ok tt, record w { refresh_tokens = inserted db_now r ∷ w.refresh_tokens })))
unfolding insert
insert-cases db_now r w = elim (Bool-cases (insert_allowed r w)) [
  | inr refused ↦ inl (rw refused)
  | inl allowed ↦
      let new = any (λ t. (t.id == r.id) || (t.token_hash == r.token_hash)) w.refresh_tokens in
      let none_met : new ≡ false = ground arith in
      inr (
        fresh_id r.id r.token_hash w.refresh_tokens none_met,
        fresh_hash r.id r.token_hash w.refresh_tokens none_met,
        rw allowed,
      )
]
