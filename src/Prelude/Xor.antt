-- ===== src/Prelude/Xor.antt =====
-- Laws of the exclusive or at every width. The native operation stands for a recursion on binary
-- digits; one equation for the lowest digit gives the rest by induction on a bound.
use Prim.Native.Nat.{ℕ, zero, suc, ◌+◌, ◌*◌, ◌/◌, ◌%◌, ◌^◌, ◌≤◌, ◌<◌}
use Prim.Native.Nat.{differ, digits, bit_xor-bitwise}
use mathlib.Core.Path.{◌≡◌, refl, ap, ap₂, ◌∙◌, sym}
use native.Mathlib.Nat.{pow-suc, pow-zero, mod-one, one-le-pow}
use native.Mathlib.Omega.{arith}
pub use Prim.Native.Nat.{bit_xor}

digits_zero : (fuel y : ℕ) → digits (λ t. t) differ fuel 0 y ≡ y
digits_zero zero y = refl
digits_zero (suc fuel) y = refl

-- Fuel beyond the first number changes nothing.
digits_enough :
    (x y fuel more : ℕ)
    → x ≤ fuel
    → x ≤ more
    → digits (λ t. t) differ fuel x y ≡ digits (λ t. t) differ more x y
digits_enough zero y fuel more h k = digits_zero fuel y ∙ sym (digits_zero more y)
digits_enough (suc x) y zero more h k = absurd (omega arith)
digits_enough (suc x) y (suc fuel) zero h k = absurd (omega arith)
digits_enough (suc x) y (suc fuel) (suc more) h k =
    omega (arith, digits_enough (suc x / 2) (y / 2) fuel more (omega arith) (omega arith))

pub zero-bit_xor : (b : ℕ) → bit_xor 0 b ≡ b
zero-bit_xor b = bit_xor-bitwise 0 b

-- On binary digits, "differ" is the sum modulo 2.
differ_bits : (a b : ℕ) → a < 2 → b < 2 → differ a b ≡ (a + b) % 2
differ_bits zero zero p q = refl
differ_bits zero (suc zero) p q = refl
differ_bits zero (suc (suc b)) p q = absurd (omega arith)
differ_bits (suc zero) zero p q = refl
differ_bits (suc zero) (suc zero) p q = refl
differ_bits (suc zero) (suc (suc b)) p q = absurd (omega arith)
differ_bits (suc (suc a)) b p q = absurd (omega arith)

pub bit_xor_step : (a b : ℕ) → bit_xor a b ≡ bit_xor (a / 2) (b / 2) * 2 + (a + b) % 2
bit_xor_step zero b = omega (arith, zero-bit_xor b, zero-bit_xor (b / 2))
bit_xor_step (suc a) b = omega (
  arith,
  bit_xor-bitwise (suc a) b,
  bit_xor-bitwise (suc a / 2) (b / 2),
  digits_enough (suc a / 2) (b / 2) a (suc a / 2) (omega arith) (omega arith),
  differ_bits (suc a % 2) (b % 2) (omega arith) (omega arith),
)

bit_xor-comm_fuel : (n a b : ℕ) → a ≤ n → b ≤ n → bit_xor a b ≡ bit_xor b a
bit_xor-comm_fuel zero zero zero p q = refl
bit_xor-comm_fuel zero zero (suc b) p q = absurd (omega arith)
bit_xor-comm_fuel zero (suc a) b p q = absurd (omega arith)
bit_xor-comm_fuel (suc n) a b p q = omega (
  arith,
  bit_xor_step a b,
  bit_xor_step b a,
  bit_xor-comm_fuel n (a / 2) (b / 2) (omega arith) (omega arith),
)

pub bit_xor_comm : (a b : ℕ) → bit_xor a b ≡ bit_xor b a
bit_xor_comm a b = bit_xor-comm_fuel (a + b) a b (omega arith) (omega arith)

pub bit_xor-zero : (a : ℕ) → bit_xor a 0 ≡ a
bit_xor-zero a = bit_xor_comm a 0 ∙ zero-bit_xor a

bit_xor-self_fuel : (n a : ℕ) → a ≤ n → bit_xor a a ≡ 0
bit_xor-self_fuel zero zero p = refl
bit_xor-self_fuel zero (suc a) p = absurd (omega arith)
bit_xor-self_fuel (suc n) a p =
    omega (arith, bit_xor_step a a, bit_xor-self_fuel n (a / 2) (omega arith))

pub bit_xor_self : (a : ℕ) → bit_xor a a ≡ 0
bit_xor_self a = bit_xor-self_fuel a a (omega arith)

half-bit_xor : (a b : ℕ) → bit_xor a b / 2 ≡ bit_xor (a / 2) (b / 2)
half-bit_xor a b = omega (arith, bit_xor_step a b)

bit_xor-mod_two : (a b : ℕ) → bit_xor a b % 2 ≡ (a + b) % 2
bit_xor-mod_two a b = omega (arith, bit_xor_step a b)

bit_xor-assoc_fuel :
    (n a b c : ℕ) → a ≤ n → b ≤ n → c ≤ n → bit_xor (bit_xor a b) c ≡ bit_xor a (bit_xor b c)
bit_xor-assoc_fuel zero zero b c p q r =
    ap (λ t. bit_xor t c) (zero-bit_xor b) ∙ sym (zero-bit_xor (bit_xor b c))
bit_xor-assoc_fuel zero (suc a) b c p q r = absurd (omega arith)
bit_xor-assoc_fuel (suc n) a b c p q r = omega (
  arith,
  bit_xor_step (bit_xor a b) c,
  bit_xor_step a (bit_xor b c),
  ap (λ t. bit_xor t (c / 2)) (half-bit_xor a b),
  ap (bit_xor (a / 2)) (half-bit_xor b c),
  bit_xor-mod_two a b,
  bit_xor-mod_two b c,
  bit_xor-assoc_fuel n (a / 2) (b / 2) (c / 2) (omega arith) (omega arith) (omega arith),
)

pub bit_xor_assoc : (a b c : ℕ) → bit_xor (bit_xor a b) c ≡ bit_xor a (bit_xor b c)
bit_xor_assoc a b c = bit_xor-assoc_fuel (a + b + c) a b c (omega arith) (omega arith) (omega arith)

-- A second exclusive or with the same number undoes the first.
pub bit_xor_cancel : (a b : ℕ) → bit_xor (bit_xor a b) b ≡ a
bit_xor_cancel a b = bit_xor_assoc a b b ∙ ap (bit_xor a) (bit_xor_self b) ∙ bit_xor-zero a

pub bit_xor-lt : (k a b : ℕ) → a < 2 ^ k → b < 2 ^ k → bit_xor a b < 2 ^ k
bit_xor-lt zero zero b p q = omega (arith, zero-bit_xor b)
bit_xor-lt zero (suc a) b p q = absurd (omega arith)
bit_xor-lt (suc k) a b p q = omega (
  arith,
  pow-suc 2 k,
  bit_xor_step a b,
  bit_xor-lt k (a / 2) (b / 2) (omega (arith, pow-suc 2 k)) (omega (arith, pow-suc 2 k)),
)

double_mod : (h r p : ℕ) → r < 2 → 0 < p → (h * 2 + r) % (p * 2) ≡ h % p * 2 + r
double_mod h r p small pos = grind arith

halve_mod : (a p : ℕ) → 0 < p → a % (p * 2) ≡ a / 2 % p * 2 + a % 2
halve_mod a p pos =
    ap (λ t. t % (p * 2)) (omega arith) ∙ double_mod (a / 2) (a % 2) p (omega arith) pos

half-mod : (a p : ℕ) → 0 < p → a % (p * 2) / 2 ≡ a / 2 % p
half-mod a p pos = omega (arith, halve_mod a p pos)

mod-mod_two : (a p : ℕ) → 0 < p → a % (p * 2) % 2 ≡ a % 2
mod-mod_two a p pos = omega (arith, halve_mod a p pos)

xor_mod_double :
    (p a b : ℕ)
    → 0 < p
    → bit_xor (a / 2) (b / 2) % p ≡ bit_xor (a / 2 % p) (b / 2 % p)
    → bit_xor a b % (p * 2) ≡ bit_xor (a % (p * 2)) (b % (p * 2))
xor_mod_double p a b pos ih = omega (
  arith,
  halve_mod (bit_xor a b) p pos,
  ap (λ t. t % p) (half-bit_xor a b),
  bit_xor-mod_two a b,
  bit_xor_step (a % (p * 2)) (b % (p * 2)),
  ap (λ t. bit_xor t (b % (p * 2) / 2)) (half-mod a p pos),
  ap (bit_xor (a / 2 % p)) (half-mod b p pos),
  mod-mod_two a p pos,
  mod-mod_two b p pos,
)

-- The low `k` digits of an exclusive or depend on the low `k` digits of the two alone.
pub bit_xor_mod : (k a b : ℕ) → bit_xor a b % 2 ^ k ≡ bit_xor (a % 2 ^ k) (b % 2 ^ k)
bit_xor_mod zero a b =
    ap (λ t. bit_xor a b % t) (pow-zero 2)
    ∙ mod-one (bit_xor a b)
    ∙ sym (
        ap₂ bit_xor (ap (λ t. a % t) (pow-zero 2) ∙ mod-one a)
          (ap (λ t. b % t) (pow-zero 2) ∙ mod-one b))
bit_xor_mod (suc k) a b =
    rw (pow-suc 2 k)
      (xor_mod_double (2 ^ k) a b (one-le-pow k 2 (omega arith)) (bit_xor_mod k (a / 2) (b / 2)))
