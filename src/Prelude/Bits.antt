-- ===== src/Prelude/Bits.antt =====
-- Exclusive or at variables, by its law for the lowest digit, and tests of every number below a bound.
use Prim.Native.Nat.{
  ℕ, zero, suc, ◌+◌, ◌*◌, ◌/◌, ◌%◌, ◌≤◌, ◌<◌, ◌^◌, differ, bit_xor, digits, bit_xor-bitwise,
}
use mathlib.Core.Path.{◌≡◌, refl, sym, ap, ◌∙◌}
use mathlib.Core.Logic.{inl, inr}
use mathlib.Core.Bool.{Bool, true, false}
use native.Mathlib.Nat.{pow-suc}
use native.Mathlib.Omega.{arith}
use new_era.Prelude.Tests.{◌==◌, ==_iff, Bool-cases}

-- Whether a test holds of each number below the bound.
unfoldable pub holds_below : (ℕ → Bool) → ℕ → Bool
holds_below test zero = true
holds_below test (suc bound) = elim (test bound) [ true ↦ holds_below test bound | false ↦ false ]

pub holds_at :
    (test : ℕ → Bool) (bound : ℕ)
    → holds_below test bound ≡ true
    → (x : ℕ) → x < bound
    → test x ≡ true
unfolding holds_below
holds_at test zero all x lt = absurd (omega arith)
holds_at test (suc bound) all x lt =
    let last : test bound ≡ true = ground arith in
    let before : holds_below test bound ≡ true = ground arith in
    elim (Bool-cases (x == bound)) [
      | inl e ↦ ap test ((==_iff x bound).0 e) ∙ last
      | inr e ↦ holds_at test bound before x (ground (arith, e, lt))
    ]

-- bit_xor on a number of digits that is given apart.
abbrev xor_on : ℕ → ℕ → ℕ → ℕ
xor_on count a b = digits (λ last. last) differ count a b

-- One digit more than needed changes nothing, and so do several.
xor_on_more : (count a b : ℕ) → a ≤ count → xor_on (suc count) a b ≡ xor_on count a b
xor_on_more zero zero b le = refl
xor_on_more (suc count) zero b le = refl
xor_on_more zero (suc a) b le = absurd (omega arith)
xor_on_more (suc count) (suc a) b le =
    omega (arith, xor_on_more count (suc a / 2) (b / 2) (omega arith))

xor_on_enough : (count a b : ℕ) → a ≤ count → xor_on count a b ≡ xor_on a a b
xor_on_enough zero zero b le = refl
xor_on_enough zero (suc a) b le = absurd (omega arith)
xor_on_enough (suc count) a b le = elim (Bool-cases (a == suc count)) [
  | inl e ↦ ap (λ (n : ℕ). xor_on n a b) (sym ((==_iff a (suc count)).0 e))
  | inr e ↦
      (let fewer : a ≤ count = ground (arith, e, le) in
        xor_on_more count a b fewer ∙ xor_on_enough count a b fewer)
]

pub zero-bit_xor : (b : ℕ) → bit_xor 0 b ≡ b
zero-bit_xor b = bit_xor-bitwise 0 b

-- Two digits differ, as arithmetic.
differ_digits : (x y : ℕ) → x < 2 → y < 2 → differ x y ≡ (x + y) % 2
differ_digits zero zero h k = refl
differ_digits zero (suc zero) h k = refl
differ_digits (suc zero) zero h k = refl
differ_digits (suc zero) (suc zero) h k = refl
differ_digits (suc (suc x)) y h k = absurd (omega arith)
differ_digits zero (suc (suc y)) h k = absurd (omega arith)
differ_digits (suc zero) (suc (suc y)) h k = absurd (omega arith)

pub bit_xor_step : (a b : ℕ) → bit_xor a b ≡ bit_xor (a / 2) (b / 2) * 2 + (a + b) % 2
bit_xor_step zero b = omega (arith, zero-bit_xor b, zero-bit_xor (b / 2))
bit_xor_step (suc a) b = omega (
  arith,
  bit_xor-bitwise (suc a) b,
  bit_xor-bitwise (suc a / 2) (b / 2),
  xor_on_enough a (suc a / 2) (b / 2) (omega arith),
  differ_digits (suc a % 2) (b % 2) (omega arith) (omega arith),
)

-- What an exclusive or changed, the same exclusive or restores.
bit_xor_twice_fuel : (n a b : ℕ) → a ≤ n → b ≤ n → bit_xor (bit_xor a b) b ≡ a
bit_xor_twice_fuel zero zero zero h k = refl
bit_xor_twice_fuel zero (suc a) b h k = absurd (omega arith)
bit_xor_twice_fuel zero zero (suc b) h k = absurd (omega arith)
bit_xor_twice_fuel (suc n) a b h k =
    let half : bit_xor a b / 2 ≡ bit_xor (a / 2) (b / 2) = omega (arith, bit_xor_step a b) in
    omega (
      arith,
      bit_xor_step a b,
      bit_xor_step (bit_xor a b) b,
      ap (λ (t : ℕ). bit_xor t (b / 2)) half,
      bit_xor_twice_fuel n (a / 2) (b / 2) (omega arith) (omega arith),
    )

pub bit_xor_twice : (a b : ℕ) → bit_xor (bit_xor a b) b ≡ a
bit_xor_twice a b = bit_xor_twice_fuel (a + b) a b (omega arith) (omega arith)

pub bit_xor_comm_fuel : (n a b : ℕ) → a ≤ n → b ≤ n → bit_xor a b ≡ bit_xor b a
bit_xor_comm_fuel zero zero zero h k = refl
bit_xor_comm_fuel zero (suc a) b h k = absurd (omega arith)
bit_xor_comm_fuel zero zero (suc b) h k = absurd (omega arith)
bit_xor_comm_fuel (suc n) a b h k = omega (
  arith,
  bit_xor_step a b,
  bit_xor_step b a,
  bit_xor_comm_fuel n (a / 2) (b / 2) (omega arith) (omega arith),
)

pub bit_xor_comm : (a b : ℕ) → bit_xor a b ≡ bit_xor b a
bit_xor_comm a b = bit_xor_comm_fuel (a + b) a b (omega arith) (omega arith)

-- An exclusive or stays below a power of two that both sides are below; here at width 16.
xor_below : (w a b : ℕ) → a < 2 ^ w → b < 2 ^ w → bit_xor a b < 2 ^ w
xor_below zero zero zero h k = h
xor_below zero (suc a) b h k = absurd (omega arith)
xor_below zero zero (suc b) h k = absurd (omega arith)
xor_below (suc w) a b h k = omega (
  arith,
  bit_xor_step a b,
  xor_below w (a / 2) (b / 2) (omega (arith, pow-suc 2 w)) (omega (arith, pow-suc 2 w)),
  pow-suc 2 w,
)

pub xor_word : (a b : ℕ) → a < 65536 → b < 65536 → bit_xor a b < 65536
xor_word a b h k = xor_below 16 a b h k
