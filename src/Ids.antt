-- ===== src/Ids.antt =====
-- uuidv7.ts. A UUID is its 128-bit number; what is random in it is its 12 bits after the version
-- and its 62 bits after the variant.
use backend_java_spring_boot.Prelude.{ℕ, ◌+◌, ◌*◌, ◌/◌, ◌%◌, ◌<◌, ◌≡◌, arith}

-- The six bytes of the time, as `setUint32` and `setUint16` write them.
unfoldable pub timestamp : ℕ → ℕ
timestamp now = now / 65536 % 4294967296 * 65536 + now % 65536

-- The ten bytes after them: the version 7 with 12 random bits, the variant with 62.
unfoldable pub random_part : (rand_a rand_b : ℕ) → ℕ
random_part rand_a rand_b =
    (7 * 4096 + rand_a % 4096) * 18446744073709551616
    + (9223372036854775808 + rand_b % 4611686018427387904)

-- `uuidv7`, at the millisecond `now`
unfoldable pub uuidv7 : (now rand_a rand_b : ℕ) → ℕ
unfolding timestamp random_part
uuidv7 now rand_a rand_b = timestamp now * 1208925819614629174706176 + random_part rand_a rand_b

timestamp_exact : (now : ℕ) → now < 281474976710656 → timestamp now ≡ now
unfolding timestamp
timestamp_exact now h = omega arith

random_part_lt : (rand_a rand_b : ℕ) → random_part rand_a rand_b < 1208925819614629174706176
unfolding random_part
random_part_lt rand_a rand_b = omega arith

-- An id that is made in a later millisecond is larger, whatever is drawn, up to the 48 bits of the
-- time.
pub uuidv7_later :
    (now later rand_a rand_b rand_c rand_d : ℕ)
    → now < later
    → later < 281474976710656
    → uuidv7 now rand_a rand_b < uuidv7 later rand_c rand_d
unfolding uuidv7
uuidv7_later now later rand_a rand_b rand_c rand_d h k =
    let early = timestamp_exact now (omega (arith, h, k)) in
    let late = timestamp_exact later k in
    let below = random_part_lt rand_a rand_b in rw early (rw late (omega (arith, h, below)))
