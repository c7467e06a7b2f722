-- ===== src/Wire/Bits.antt =====
-- The bit operations at variables: one equation for the lowest digit of each, and what follows for
-- masks, disjoint fields and `x ^ x`. Nothing here is about the driver itself.
use Prim.Native.Nat.{digits, bitwise, bit_and-bitwise, bit_or-bitwise, bit_xor-bitwise, differ}
use mathlib.Core.WellFounded
use native.Mathlib.Nat.{pow-suc}
use wsg50_ros2_humble.Base.{
  ℕ, zero, suc, ◌+◌, ◌-◌, ◌*◌, ◌/◌, ◌%◌, ◌^◌, ◌≤◌, ◌<◌, max, min, bit_and, bit_or, bit_xor, ◌≡◌,
  refl, ap, arith,
}
use wsg50_ros2_humble.Base.Order.{lt_wf}

module _ (end : ℕ → ℕ) (op : ℕ → ℕ → ℕ) where
  -- Two counts of digits that both suffice give the same number.
  digits_enough : (k l x y : ℕ) → x ≤ k → x ≤ l → digits end op k x y ≡ digits end op l x y
  digits_enough (suc k) (suc l) (suc x) y hk hl =
      ap (λ t. t * 2 + op (suc x % 2) (y % 2))
        (digits_enough k l (suc x / 2) (y / 2) (omega arith) (omega arith))
  digits_enough (suc k) (suc l) zero y hk hl = refl
  digits_enough zero zero x y hk hl = refl
  digits_enough zero (suc l) zero y hk hl = refl
  digits_enough (suc k) zero zero y hk hl = refl
  digits_enough zero (suc l) (suc x) y hk hl = elim hk [ ]
  digits_enough (suc k) zero (suc x) y hk hl = elim hl [ ]

  lowest_digit :
      (x y : ℕ)
      → bitwise end op (suc x) y ≡ bitwise end op (suc x / 2) (y / 2) * 2 + op (suc x % 2) (y % 2)
  lowest_digit x y =
      ap (λ t. t * 2 + op (suc x % 2) (y % 2))
        (digits_enough x (suc x / 2) (suc x / 2) (y / 2) (omega arith) (omega arith))

or_digit : (x y : ℕ) → bit_or x y ≡ bit_or (x / 2) (y / 2) * 2 + max (x % 2) (y % 2)
or_digit zero y = simp bit_or-bitwise (omega arith)
or_digit (suc x) y = simp bit_or-bitwise (lowest_digit _ max x y)

and_digit : (x y : ℕ) → bit_and x y ≡ bit_and (x / 2) (y / 2) * 2 + min (x % 2) (y % 2)
and_digit zero y = simp bit_and-bitwise (omega arith)
and_digit (suc x) y = simp bit_and-bitwise (lowest_digit _ min x y)

xor_digit : (x y : ℕ) → bit_xor x y ≡ bit_xor (x / 2) (y / 2) * 2 + differ (x % 2) (y % 2)
xor_digit zero y = simp bit_xor-bitwise (omega arith)
xor_digit (suc x) y = simp bit_xor-bitwise (lowest_digit _ differ x y)

differ_self : (x : ℕ) → differ x x ≡ 0
differ_self zero = refl
differ_self (suc x) = differ_self x

-- Induction from half a number to the number.
halving : (P : ℕ → Type 0) → P 0 → ((k : ℕ) → P (suc k / 2) → P (suc k)) → (x : ℕ) → P x
halving P base step x = WellFounded.induction lt_wf {C = P} x below
  where
    below : (k : ℕ) → ((m : ℕ) → m < k → P m) → P k
    below zero ih = base
    below (suc k) ih = step k (ih (suc k / 2) (omega arith))

differ-zero : (x : ℕ) → differ x 0 ≡ x
differ-zero zero = refl
differ-zero (suc x) = refl

pub zero-xor : (y : ℕ) → bit_xor 0 y ≡ y
zero-xor y = simp bit_xor-bitwise

zero-or : (y : ℕ) → bit_or 0 y ≡ y
zero-or y = simp bit_or-bitwise

and-zero : (x : ℕ) → bit_and x 0 ≡ 0
and-zero = halving _ refl λ k ih. omega (arith, and_digit (suc k) 0)

xor-zero : (x : ℕ) → bit_xor x 0 ≡ x
xor-zero = halving _ refl λ k ih. omega (arith, xor_digit (suc k) 0, differ-zero (suc k % 2))

pub xor_self : (x : ℕ) → bit_xor x x ≡ 0
xor_self = halving _ refl λ k ih. omega (arith, xor_digit (suc k) (suc k), differ_self (suc k % 2))

double : (q k : ℕ) → q * 2 ^ suc k ≡ 2 * (q * 2 ^ k)
double q k = omega (arith, ap (λ (t : ℕ). q * t) (pow-suc 2 k))

-- A number below 2 ^ k and a multiple of 2 ^ k have no digit in common.
pub bit_or_low_high : (k x q : ℕ) → x < 2 ^ k → bit_or x (q * 2 ^ k) ≡ x + q * 2 ^ k
bit_or_low_high zero x q h = ground (arith, zero-or q)
bit_or_low_high (suc k) x q h =
    ground (arith, double q k, pow-suc 2 k, or_digit x (q * 2 ^ suc k), bit_or_low_high k (x / 2) q)

-- A mask of `k` ones takes the low digits.
and_ones_fields : (k q x : ℕ) → x < 2 ^ k → bit_and (x + q * 2 ^ k) (2 ^ k - 1) ≡ x
and_ones_fields zero q x h = ground (arith, and-zero q)
and_ones_fields (suc k) q x h = ground (
  arith,
  double q k,
  pow-suc 2 k,
  and_digit (x + q * 2 ^ suc k) (2 ^ suc k - 1),
  and_ones_fields k q (x / 2),
)

-- What the low digits clear, and what they leave.
pub xor_low_fields : (k q x : ℕ) → x < 2 ^ k → bit_xor (x + q * 2 ^ k) x ≡ q * 2 ^ k
xor_low_fields zero q x h = ground (arith, xor-zero q)
xor_low_fields (suc k) q x h = ground (
  arith,
  double q k,
  pow-suc 2 k,
  xor_digit (x + q * 2 ^ suc k) x,
  differ_self (x % 2),
  xor_low_fields k q (x / 2),
)

pub bit_and_byte : (x : ℕ) → bit_and x 0xff ≡ x % 256
bit_and_byte x = ground (arith, and_ones_fields 8 (x / 256) (x % 256))

pub xor_low_byte : (x : ℕ) → bit_xor x (x % 256) ≡ x / 256 * 256
xor_low_byte x = ground (arith, xor_low_fields 8 (x / 256) (x % 256))

or_halves :
    (m n : ℕ) → (bit_or m n / 2 ≡ bit_or (m / 2) (n / 2)) × (bit_or m n % 2 ≡ max (m % 2) (n % 2))
or_halves m n = omega (arith, or_digit m n)

-- A mask with more bits keeps more.
pub bit_and-le-bit_or :
    (x m n : ℕ) → (bit_and x m ≤ bit_and x (bit_or m n)) × (bit_and x n ≤ bit_and x (bit_or m n))
bit_and-le-bit_or =
    halving
      (λ x.
        (m n : ℕ) → (bit_and x m ≤ bit_and x (bit_or m n)) × (bit_and x n ≤ bit_and x (bit_or m n)))
      (λ m n. simp bit_and-bitwise (omega arith))
      (λ k ih m n.
        let (halved, last) = or_halves m n in
        let next = ih (m / 2) (n / 2) in
        omega (
          arith,
          and_digit (suc k) m,
          and_digit (suc k) n,
          and_digit (suc k) (bit_or m n),
          ap (bit_and (suc k / 2)) halved,
        ))
