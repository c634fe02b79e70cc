-- ===== src/Common/Xor.antt =====
-- The laws of the exclusive or at every width, from the equation for the lowest digit.
use Prim.Native.Nat.{ℕ, zero, suc, ◌+◌, ◌*◌, ◌/◌, ◌%◌, ◌^◌, ◌<◌, ◌≤◌, bit_xor}
use mathlib.Core.Path.{◌≡◌, refl, sym, ap}
use native.Mathlib.Nat.{pow-suc}
use native.Mathlib.Omega.{arith}
use rdml_blue_rov2_deploymen.Common.Bits.{bit_xor_step, bit_xor_half, zero-bit_xor}

bit_xor_parity : (a b : ℕ) → bit_xor a b % 2 ≡ (a % 2 + b % 2) % 2
bit_xor_parity a b = omega (arith, bit_xor_step a b)

xor_comm_fuel : (n a b : ℕ) → a ≤ n → b ≤ n → bit_xor a b ≡ bit_xor b a
xor_comm_fuel zero zero zero ha hb = refl
xor_comm_fuel zero zero (suc b) ha hb = absurd (omega arith)
xor_comm_fuel zero (suc a) b ha hb = absurd (omega arith)
xor_comm_fuel (suc n) a b ha hb = omega (
  arith,
  bit_xor_step a b,
  bit_xor_step b a,
  xor_comm_fuel n (a / 2) (b / 2) (omega arith) (omega arith),
)

pub bit_xor_comm : (a b : ℕ) → bit_xor a b ≡ bit_xor b a
bit_xor_comm a b = xor_comm_fuel (a + b) a b (omega arith) (omega arith)

xor_assoc_fuel : (n a b c : ℕ) → a ≤ n → b ≤ n → bit_xor (bit_xor a b) c ≡ bit_xor a (bit_xor b c)
xor_assoc_fuel zero zero zero c ha hb = sym (zero-bit_xor (bit_xor 0 c))
xor_assoc_fuel zero zero (suc b) c ha hb = absurd (omega arith)
xor_assoc_fuel zero (suc a) b c ha hb = absurd (omega arith)
xor_assoc_fuel (suc n) a b c ha hb = ground (
  arith,
  bit_xor_step (bit_xor a b) c,
  bit_xor_step a (bit_xor b c),
  bit_xor_half a b,
  bit_xor_half b c,
  bit_xor_parity a b,
  bit_xor_parity b c,
  xor_assoc_fuel n (a / 2) (b / 2) (c / 2) (omega arith) (omega arith),
)

pub bit_xor_assoc : (a b c : ℕ) → bit_xor (bit_xor a b) c ≡ bit_xor a (bit_xor b c)
bit_xor_assoc a b c = xor_assoc_fuel (a + b) a b c (omega arith) (omega arith)

pub bit_xor_left_comm : (a b c : ℕ) → bit_xor a (bit_xor b c) ≡ bit_xor b (bit_xor a c)
bit_xor_left_comm a b c = cc (bit_xor_assoc a b c, bit_xor_assoc b a c, bit_xor_comm a b)

-- Two sums of two, summed the other way.
pub bit_xor_interchange :
    (a b c d : ℕ) → bit_xor (bit_xor a b) (bit_xor c d) ≡ bit_xor (bit_xor a c) (bit_xor b d)
bit_xor_interchange a b c d =
    cc (bit_xor_assoc a b (bit_xor c d), bit_xor_assoc a c (bit_xor b d), bit_xor_left_comm b c d)

xor_double : (a b : ℕ) → bit_xor (a * 2) (b * 2) ≡ bit_xor a b * 2
xor_double a b = ground (arith, bit_xor_step (a * 2) (b * 2), half a, half b)
  where
    half : (n : ℕ) → n * 2 / 2 ≡ n
    half n = omega arith

mul-pow-suc : (q k : ℕ) → q * 2 ^ suc k ≡ q * 2 ^ k * 2
mul-pow-suc q k = omega (arith, ap (λ (t : ℕ). q * t) (pow-suc 2 k))

-- A shift to the left goes through.
pub bit_xor_shift : (k a b : ℕ) → bit_xor (a * 2 ^ k) (b * 2 ^ k) ≡ bit_xor a b * 2 ^ k
bit_xor_shift zero a b = ground arith
bit_xor_shift (suc k) a b = ground (
  arith,
  mul-pow-suc a k,
  mul-pow-suc b k,
  mul-pow-suc (bit_xor a b) k,
  xor_double (a * 2 ^ k) (b * 2 ^ k),
  bit_xor_shift k a b,
)

-- Numbers with no digit in common add up.
pub bit_xor_fields : (k q r : ℕ) → r < 2 ^ k → bit_xor (q * 2 ^ k) r ≡ q * 2 ^ k + r
bit_xor_fields zero q zero h = ground (arith, bit_xor_comm (q * 1) 0, zero-bit_xor (q * 1))
bit_xor_fields zero q (suc r) h = absurd (omega arith)
bit_xor_fields (suc k) q r h = ground (
  arith,
  bit_xor_step (q * 2 ^ suc k) r,
  mul-pow-suc q k,
  half (q * 2 ^ k),
  bit_xor_fields k q (r / 2) (omega (arith, pow-suc 2 k)),
)
  where
    half : (n : ℕ) → n * 2 / 2 ≡ n
    half n = omega arith
