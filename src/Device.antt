-- ===== src/Device.antt =====
-- device/zero/init.c and device/null/init.c: the read and write handlers of the two devices.
use tlibc.Base.{
  ℕ, zero, suc, ◌+◌, ◌-◌, ◌≤◌, ◌≡◌, refl, ◌∙◌, Bool, true, false, Memory, memset, arith, ltb, ◌==◌,
  if◌then◌else◌,
}

-- `copy_to_user` is outside the source: does it copy so many bytes to the address?
abbrev Copies : Type 0
Copies = ℕ → ℕ → Bool

-- `moved`: the bytes handled, the user's memory and the new position. `fault`: `-EFAULT`, with what
-- the rounds before have copied. `endless`: the fuel ran out.
pub data Handled : Type 0 where
  moved : ℕ → Memory → ℕ → Handled
  fault : Memory → Handled
  endless : Handled

-- `sizeof(buf) > count ? count : sizeof(buf)`
abbrev bread : ℕ → ℕ
bread count = if ltb count 512 then count else 512

-- The loop of `device_file_read`; `tread` bytes were copied. A round copies a byte or more.
zero_from : ℕ → Copies → Memory → ℕ → ℕ → ℕ → ℕ → Handled
zero_from zero copies m user count tread position =
    if count == 0 then moved tread m (position + tread) else endless
zero_from (suc fuel) copies m user count tread position =
    let n = bread count in
    let rest =
      zero_from fuel copies (memset m user 0 n) (user + n) (count - n) (tread + n) position in
    if count == 0 then moved tread m (position + tread) else if copies user n then rest else fault m

pub zero_read : ℕ → Copies → Memory → ℕ → ℕ → ℕ → Handled
zero_read fuel copies m user count position = zero_from fuel copies m user count 0 position

-- `device_file_write` takes everything, and leaves the position.
zero_write : ℕ → ℕ → ℕ × ℕ
zero_write count position = (count, position)

null_read : Memory → ℕ → ℕ → Handled
null_read m count position = moved 0 m position

null_write : ℕ → ℕ → ℕ × ℕ
null_write count position = (count, position + count)

-- The loop, where every copy succeeds.
zero_from-memset :
    (fuel : ℕ) (copies : Copies) (m : Memory) (user count tread position all : ℕ)
    → tread + count ≡ all
    → ((a n : ℕ) → copies a n ≡ true)
    → count ≤ fuel
    → (m' : Memory) × (zero_from fuel copies m user count tread position
        ≡ moved all m' (position + all))
      × ((q : ℕ) → m' q ≡ memset m user 0 count q)
unfolding zero_from
zero_from-memset zero copies m user zero tread position all e ok enough =
    let e2 : tread ≡ all = omega arith in (m, rw e2 refl, λ q. ground arith)
zero_from-memset zero copies m user (suc count) tread position all e ok enough =
    absurd (omega (arith, enough))
zero_from-memset (suc fuel) copies m user zero tread position all e ok enough =
    let e2 : tread ≡ all = omega arith in (m, rw e2 refl, λ q. ground arith)
zero_from-memset (suc fuel) copies m user (suc count) tread position all e ok enough =
    let n = bread (suc count) in
    let le : (n ≤ suc count) × (1 ≤ n) = ground arith in
    let ne : (suc count == 0) ≡ false = ground arith in
    let r =
      zero_from-memset fuel copies (memset m user 0 n) (user + n) (suc count - n) (tread + n)
        position all (omega (arith, le, e)) ok (omega (arith, le, enough)) in
    (r.0, rw (ne, ok user n) r.1, λ q. r.2 q ∙ memset_twice m user n (suc count) q le.0)
  where
    memset_twice :
        (m : Memory) (user n count q : ℕ)
        → n ≤ count
        → memset (memset m user 0 n) (user + n) 0 (count - n) q ≡ memset m user 0 count q
    memset_twice m user n count q h = ground (arith, h)

-- A read of the zero device, where `copy_to_user` succeeds, ends; it returns the count it was asked
-- for, moves the position by as much, and sets exactly so many bytes of the user's to 0.
pub zero_read-memset :
    (copies : Copies) (m : Memory) (user count position : ℕ)
    → ((a n : ℕ) → copies a n ≡ true)
    → (m' : Memory) × (zero_read count copies m user count position
        ≡ moved count m' (position + count))
      × ((q : ℕ) → m' q ≡ memset m user 0 count q)
unfolding zero_read
zero_read-memset copies m user count position ok =
    zero_from-memset count copies m user count 0 position count (omega arith) ok (omega arith)
