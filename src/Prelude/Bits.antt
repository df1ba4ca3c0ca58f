-- ===== src/Prelude/Bits.antt =====
-- The binary digits of two numbers that are joined: their width, and each of them.
use Prim.Native.Nat.{
  ℕ, zero, suc, ◌*◌, ◌+◌, ◌/◌, ◌%◌, ◌^◌, ◌<◌, ◌≤◌, min, max, digits, bit_or, bit_or-bitwise,
  bit_and, bit_and-bitwise,
}
use mathlib.Core.Bool.{not, ◌&&◌}
use mathlib.Core.Path.{◌≡◌, refl, sym, subst, ◌∙◌}
use native.Mathlib.Nat.{pow-suc, one-le-pow, pow-le-pow_right}
use native.Mathlib.Omega.{arith}
use espresso.Prelude.Tests.{◌==◌}

digits-lt : (k n a b : ℕ) → a < 2 ^ k → b < 2 ^ k → digits (λ y. y) max n a b < 2 ^ k
digits-lt k zero a b h l = l
digits-lt k (suc n) zero b h l = l
digits-lt zero (suc n) (suc a) b h l = absurd (omega arith)
digits-lt (suc k) (suc n) (suc a) b h l =
    let twice = pow-suc 2 k in
    let rest = digits-lt k n (suc a / 2) (b / 2) (omega (arith, twice)) (omega (arith, twice)) in
    omega (arith, twice, rest)

pub bit_or-lt : (k a b : ℕ) → a < 2 ^ k → b < 2 ^ k → bit_or a b < 2 ^ k
bit_or-lt k a b h l = subst (λ n. n < 2 ^ k) (sym (bit_or-bitwise a b)) (digits-lt k a a b h l)

pub pow-lt_pow : (n k : ℕ) → n < k → 2 ^ n < 2 ^ k
pow-lt_pow n k h =
    let more : 2 ^ suc n ≤ 2 ^ k = pow-le-pow_right (omega arith) h in
    omega (arith, pow-suc 2 n, one-le-pow n 2 (omega arith), more)

pub pow-cancel : (n k : ℕ) → 2 ^ n ≡ 2 ^ k → n ≡ k
pow-cancel zero zero e = refl
pow-cancel zero (suc k) e = absurd (omega (arith, pow-suc 2 k))
pow-cancel (suc n) zero e = absurd (omega (arith, pow-suc 2 n))
pow-cancel (suc n) (suc k) e =
    omega (arith, pow-cancel n k (omega (arith, pow-suc 2 n, pow-suc 2 k)))

-- Any count that is not below the first number serves as the fuel.
module _ (rest : ℕ → ℕ) (join : ℕ → ℕ → ℕ) where
  digits-count : (a b n m : ℕ) → a ≤ n → a ≤ m → digits rest join n a b ≡ digits rest join m a b
  digits-count zero b zero zero l k = refl
  digits-count zero b zero (suc m) l k = refl
  digits-count zero b (suc n) zero l k = refl
  digits-count zero b (suc n) (suc m) l k = refl
  digits-count (suc a) b zero m l k = absurd (omega arith)
  digits-count (suc a) b (suc n) zero l k = absurd (omega arith)
  digits-count (suc a) b (suc n) (suc m) l k =
      let halves = digits-count (suc a / 2) (b / 2) n m (omega arith) (omega arith) in
      omega (arith, halves)

  digits-halves :
      (a b : ℕ)
      → digits rest join (suc a) (suc a) b
        ≡ digits rest join (suc a / 2) (suc a / 2) (b / 2) * 2 + join (suc a % 2) (b % 2)
  digits-halves a b =
      omega (arith, digits-count (suc a / 2) (b / 2) a (suc a / 2) (omega arith) (omega arith))

bit_or-halves : (a b : ℕ) → bit_or a b ≡ bit_or (a / 2) (b / 2) * 2 + max (a % 2) (b % 2)
bit_or-halves zero b = omega (arith, bit_or-bitwise 0 b, bit_or-bitwise 0 (b / 2))
bit_or-halves (suc a) b = omega (
  arith,
  bit_or-bitwise (suc a) b,
  bit_or-bitwise (suc a / 2) (b / 2),
  digits-halves (λ y. y) max a b,
)

bit_and-halves : (a b : ℕ) → bit_and a b ≡ bit_and (a / 2) (b / 2) * 2 + min (a % 2) (b % 2)
bit_and-halves zero b = omega (arith, bit_and-bitwise 0 b, bit_and-bitwise 0 (b / 2))
bit_and-halves (suc a) b = omega (
  arith,
  bit_and-bitwise (suc a) b,
  bit_and-bitwise (suc a / 2) (b / 2),
  digits-halves (λ y. 0) min a b,
)

bit_and_fuel : (n a : ℕ) → a ≤ n → bit_and a 0 ≡ 0
bit_and_fuel n zero h = bit_and-bitwise 0 0
bit_and_fuel zero (suc a) h = absurd (omega arith)
bit_and_fuel (suc n) (suc a) h =
    omega (arith, bit_and-halves (suc a) 0, bit_and_fuel n (suc a / 2) (omega arith))

bit_or_fuel : (n a : ℕ) → a ≤ n → bit_or a 0 ≡ a
bit_or_fuel n zero h = bit_or-bitwise 0 0
bit_or_fuel zero (suc a) h = absurd (omega arith)
bit_or_fuel (suc n) (suc a) h =
    omega (arith, bit_or-halves (suc a) 0, bit_or_fuel n (suc a / 2) (omega arith))

pub bit_or-zero : (a : ℕ) → bit_or a 0 ≡ a
bit_or-zero a = bit_or_fuel a a (omega arith)

pub zero-bit_and : (b : ℕ) → bit_and 0 b ≡ 0
zero-bit_and b = bit_and-bitwise 0 b

-- Whether the n-th digit is missing, by the lowest digit and the others.
lowest_digit : (a : ℕ) → bit_and a (2 ^ 0) ≡ a % 2
lowest_digit a = omega (arith, bit_and-halves a 1, bit_and_fuel (a / 2) (a / 2) (omega arith))

later_digit : (n a : ℕ) → bit_and a (2 ^ suc n) ≡ bit_and (a / 2) (2 ^ n) * 2
later_digit n a =
    let twice = pow-suc 2 n in
    let half : 2 ^ suc n / 2 ≡ 2 ^ n = omega (arith, twice) in
    let even : 2 ^ suc n % 2 ≡ 0 = omega (arith, twice) in
    bit_and-halves a (2 ^ suc n) ∙ rw (half, even) (omega arith)

-- A digit is missing where it was and is not the one set.
pub bit_or-digit :
    (m n a : ℕ)
    → (bit_and (bit_or a (2 ^ m)) (2 ^ n) == 0) ≡ (bit_and a (2 ^ n) == 0) && not (m == n)
bit_or-digit zero zero a =
    let set : bit_and (bit_or a (2 ^ 0)) (2 ^ 0) ≡ 1 =
      omega (arith, lowest_digit (bit_or a 1), bit_or-halves a 1) in
    ground (arith, set)
bit_or-digit (suc m) zero a =
    let same : bit_and (bit_or a (2 ^ suc m)) (2 ^ 0) ≡ bit_and a (2 ^ 0) = omega (
      arith,
      lowest_digit (bit_or a (2 ^ suc m)),
      lowest_digit a,
      bit_or-halves a (2 ^ suc m),
      pow-suc 2 m,
    ) in
    ground (arith, same)
bit_or-digit zero (suc n) a =
    let half : bit_or a (2 ^ 0) / 2 ≡ a / 2 =
      omega (arith, bit_or-halves a 1, bit_or-zero (a / 2)) in
    let same : bit_and (bit_or a (2 ^ 0)) (2 ^ suc n) ≡ bit_and a (2 ^ suc n) =
      later_digit n (bit_or a 1) ∙ rw half (sym (later_digit n a)) in
    ground (arith, same)
bit_or-digit (suc m) (suc n) a =
    let twice = pow-suc 2 m in
    let down : 2 ^ suc m / 2 ≡ 2 ^ m = omega (arith, twice) in
    let halved : bit_or a (2 ^ suc m) ≡ bit_or (a / 2) (2 ^ m) * 2 + max (a % 2) (2 ^ suc m % 2) =
      bit_or-halves a (2 ^ suc m) ∙ rw down refl in
    let half : bit_or a (2 ^ suc m) / 2 ≡ bit_or (a / 2) (2 ^ m) = omega (arith, halved) in
    let now : bit_and (bit_or a (2 ^ suc m)) (2 ^ suc n)
        ≡ bit_and (bit_or (a / 2) (2 ^ m)) (2 ^ n) * 2 =
      later_digit n (bit_or a (2 ^ suc m)) ∙ rw half refl in
    ground (arith, now, later_digit n a, bit_or-digit m n (a / 2))
