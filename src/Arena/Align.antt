-- ===== src/Arena/Align.antt =====
-- Rounding up to a power of two by a mask, as arithmetic.
use Prim.Native.Nat.{digits, bit_and-bitwise}
use native.Mathlib.Nat.{
  pow-suc, one-le-pow, le_refl, mul_comm, mul_assoc, div-div-eq-div-mul, div-eq_of_lt, zero-mul,
}
use native.Mathlib.Decide.{dec_le}
use topo_llvm.Prelude.{
  ℕ, zero, suc, ◌+◌, ◌-◌, ◌*◌, ◌/◌, ◌%◌, ◌^◌, ◌≤◌, ◌<◌, ◌≡◌, refl, ◌∙◌, ap, arith, bit_and, min,
  ◌⊎◌, inl, inr,
}
use topo_llvm.Arena.{align_up, padding_of, word_size, size_max}

-- The native `&` is a digit recursion on fuel, and any two fuels that cover the number agree.
module _ (z : ℕ → ℕ) (f : ℕ → ℕ → ℕ) where
  digits_agree : (m n a b : ℕ) → a ≤ m → a ≤ n → digits z f m a b ≡ digits z f n a b
  digits_agree zero zero a b hm hn = refl
  digits_agree zero (suc n) zero b hm hn = refl
  digits_agree zero (suc n) (suc a) b hm hn = absurd (omega arith)
  digits_agree (suc m) zero zero b hm hn = refl
  digits_agree (suc m) zero (suc a) b hm hn = absurd (omega arith)
  digits_agree (suc m) (suc n) zero b hm hn = refl
  digits_agree (suc m) (suc n) (suc a) b hm hn =
      omega (arith, digits_agree m n (suc a / 2) (b / 2) (omega arith) (omega arith))

low_digit : (a b : ℕ) → bit_and a b ≡ bit_and (a / 2) (b / 2) * 2 + min (a % 2) (b % 2)
low_digit zero b = rw (bit_and-bitwise zero b, bit_and-bitwise (zero / 2) (b / 2)) (omega arith)
low_digit (suc a) b =
    rw (bit_and-bitwise (suc a) b, bit_and-bitwise (suc a / 2) (b / 2))
      (omega (
        arith,
        digits_agree (λ y. 0) min a (suc a / 2) (suc a / 2) (b / 2) (omega arith) (le_refl _),
      ))

-- A mask of `j` ones keeps a number of `j` digits.
and_ones : (j x : ℕ) → x < 2 ^ j → bit_and x (2 ^ j - 1) ≡ x
and_ones zero x h = ground (arith, low_digit x 0)
and_ones (suc j) x h = ground (
  arith,
  low_digit x (2 ^ suc j - 1),
  pow-suc 2 j,
  one-le-pow j 2,
  and_ones j (x / 2) (omega (arith, pow-suc 2 j)),
)

-- One more cleared digit.
clear_digit : (m y x : ℕ) → bit_and (x / 2) m ≡ y → bit_and x (m * 2) ≡ y * 2
clear_digit m y x h =
    let half : m * 2 / 2 ≡ m = omega arith in low_digit x (m * 2) ∙ rw half (omega (arith, h))

move_two : (a b : ℕ) → a * 2 * b ≡ a * b * 2
move_two a b = omega arith

halves : (p x : ℕ) → x / 2 / p * p * 2 ≡ x / (p * 2) * (p * 2)
halves p x = rw (div-div-eq-div-mul x 2 p, mul_comm 2 p) (mul_assoc (x / (p * 2)) p 2)

half_bound : (p q x : ℕ) → x < p * 2 * q → x / 2 < p * q
half_bound p q x h = omega arith

-- `j` ones above `k` zeros clear the low `k` digits.
and_high : (k j x : ℕ) → x < 2 ^ k * 2 ^ j → bit_and x (2 ^ k * (2 ^ j - 1)) ≡ x / 2 ^ k * 2 ^ k
and_high zero j x h = ground (arith, and_ones j x (omega arith))
and_high (suc k) j x h =
    rw (pow-suc 2 k, move_two (2 ^ k) (2 ^ j - 1))
      (clear_digit _ _ x
          (and_high k j (x / 2) (half_bound (2 ^ k) (2 ^ j) x (rw (pow-suc 2 k) at h)))
        ∙ halves (2 ^ k) x)

pub pow_split : (k j n : ℕ) → k + j ≡ n → 2 ^ k * 2 ^ j ≡ 2 ^ n
pow_split zero j n e = ground arith
pow_split (suc k) j zero e = absurd (omega arith)
pow_split (suc k) j (suc n) e = omega (
  arith,
  pow-suc 2 k,
  pow-suc 2 n,
  pow_split k j n (omega arith),
  ap (λ (t : ℕ). t * 2 ^ j) (pow-suc 2 k),
)

-- A power of two that a `size_t` can hold.
pub record IsAlignment (a : ℕ) : Type 0 where
  pub exponent : ℕ
  pub below_word : exponent < 64
  pub is_power : a ≡ 2 ^ exponent

pub IsAlignment-pos : {a : ℕ} → IsAlignment a → 1 ≤ a
IsAlignment-pos i = omega (arith, one-le-pow i.exponent 2, i.is_power)

doubled-lt : (p q w : ℕ) → 1 ≤ p → 1 ≤ q → p * (q * 2) ≡ w → p < w
doubled-lt p q w hp hq e = grind arith

pub IsAlignment-lt : {a : ℕ} → IsAlignment a → a < word_size
IsAlignment-lt {a} i =
    let k = i.exponent in
    let last : 64 - k ≡ suc (63 - k) = omega (arith, i.below_word) in
    let split = pow_split k (64 - k) 64 (omega (arith, i.below_word)) in
    let tail : 2 ^ (64 - k) ≡ 2 ^ (63 - k) * 2 = rw last (pow-suc 2 (63 - k)) in
    rw i.is_power (
      doubled-lt (2 ^ k) (2 ^ (63 - k)) word_size (one-le-pow k 2 (omega arith))
        (one-le-pow (63 - k) 2 (omega arith)) (rw tail at split))

mul_pred : (p q : ℕ) → 1 ≤ q → p * (q - 1) ≡ p * q - p
mul_pred p zero h = absurd (omega arith)
mul_pred p (suc q) h = let e : suc q - 1 ≡ q = omega arith in rw e (omega arith)

-- The mask of an alignment in a `size_t`.
and_alignment : (x a : ℕ) → x < word_size → IsAlignment a → bit_and x (word_size - a) ≡ x / a * a
and_alignment x a h i =
    let k = i.exponent in
    let split = pow_split k (64 - k) 64 (omega (arith, i.below_word)) in
    let mask : 2 ^ k * (2 ^ (64 - k) - 1) ≡ word_size - a = omega (
      arith,
      split,
      i.is_power,
      mul_pred (2 ^ k) (2 ^ (64 - k)) (one-le-pow (64 - k) 2 (omega arith)),
    ) in
    rw (← mask) (rw i.is_power (and_high k (64 - k) x (omega (arith, split))))

rounds_down : (x a : ℕ) → 1 ≤ a → (x / a * a % a ≡ 0) × (x / a * a ≤ x) × (x < x / a * a + a)
rounds_down x a h = (grind arith, grind arith, grind arith)

rounds_to_zero : (x a : ℕ) → x < a → x / a * a ≡ 0
rounds_to_zero x a h = rw (div-eq_of_lt h) (zero-mul a)

-- Where the sum does not wrap, the mask expression is the least multiple above the address.
pub align_up_fits :
    (addr a : ℕ)
    → IsAlignment a
    → addr + a ≤ word_size
    → (align_up addr a % a ≡ 0) × (addr ≤ align_up addr a) × (align_up addr a < addr + a)
unfolding align_up
align_up_fits addr a i h =
    let pos = IsAlignment-pos i in
    let sum : (addr + a + size_max) % word_size ≡ addr + a - 1 = omega arith in
    let mask : size_max - (a + size_max) % word_size ≡ word_size - a = omega arith in
    rw (sum, mask, and_alignment (addr + a - 1) a (omega arith) i)
      (omega (arith, rounds_down (addr + a - 1) a pos))

-- Where it wraps, the result is 0.
pub align_up_wraps :
    (addr a : ℕ) → IsAlignment a → addr < word_size → word_size < addr + a → align_up addr a ≡ 0
unfolding align_up
align_up_wraps addr a i ha w =
    let pos = IsAlignment-pos i in
    let h = IsAlignment-lt i in
    let sum : (addr + a + size_max) % word_size ≡ addr + a - 1 - word_size = omega arith in
    let mask : size_max - (a + size_max) % word_size ≡ word_size - a = omega arith in
    rw (sum, mask, and_alignment (addr + a - 1 - word_size) a (omega arith) i)
      (rounds_to_zero (addr + a - 1 - word_size) a (omega arith))

-- So the padding is below the alignment, and above it only past the end of the address space.
pub padding_cases :
    (addr a : ℕ)
    → IsAlignment a
    → addr < word_size
    → ((align_up addr a % a ≡ 0)
        × (align_up addr a ≡ addr + padding_of addr a)
        × (padding_of addr a < a))
      ⊎ ((padding_of addr a + addr ≡ word_size) × (padding_of addr a < a))
unfolding padding_of
padding_cases addr a i h = elim (dec_le (addr + a) word_size) [
  | yes fits ↦ inl (omega (arith, align_up_fits addr a i fits, IsAlignment-pos i))
  | no wraps ↦
      inr (
        omega (arith, align_up_wraps addr a i h (omega arith), IsAlignment-pos i, IsAlignment-lt i))
]
