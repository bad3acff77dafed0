-- ===== src/Base/Bits.antt =====
-- Single bits of a byte, checked by evaluation over all values.
use Prim.Native.Nat.{ℕ, zero, suc, ◌%◌, ◌^◌, ◌<◌, bit_and, bit_or, bit_and-bitwise}
use mathlib.Core.Path.{◌≡◌, refl}
use mathlib.Core.Bool.{Bool, true, false, ◌&&◌, ◌||◌, not}
use native.Mathlib.Omega.{arith}
use tipping.Base.Tests.{◌==◌, ltb}

-- A test holds of the numbers below a bound.
unfoldable pub holds_below : (ℕ → Bool) → ℕ → Bool
holds_below test zero = true
holds_below test (suc bound) = holds_below test bound && test bound

pub holds_below-at :
    (test : ℕ → Bool) (bound i : ℕ) → i < bound → holds_below test bound ≡ true → test i ≡ true
unfolding holds_below
holds_below-at test zero i inside all_hold = absurd (omega arith)
holds_below-at test (suc bound) i inside all_hold = ground (arith, holds_below-at test bound i)

-- `x & (1 << j) != 0`
abbrev pub has_bit : ℕ → ℕ → Bool
has_bit x j = not (bit_and x (2 ^ j) == 0)

abbrev pub same : Bool → Bool → Bool
same true b = b
same false b = not b

pub same→eq : (a b : Bool) → same a b ≡ true → a ≡ b
same→eq true b h = ground arith
same→eq false b h = ground arith

-- Setting bit `k` of a byte sets that bit, keeps the others, and gives a byte.
or_bit_table :
    holds_below
      (λ x.
        holds_below
          (λ k.
            ltb (bit_or x (2 ^ k % 256)) 256
            && holds_below
                (λ j. same (has_bit (bit_or x (2 ^ k % 256)) j) (k == j || has_bit x j))
                8)
          8)
      256
    ≡ true
unfolding holds_below
or_bit_table = refl

pub and-left : (a b : Bool) → (a && b) ≡ true → a ≡ true
and-left true b h = refl
and-left false b h = h

pub and-right : (a b : Bool) → (a && b) ≡ true → b ≡ true
and-right true b h = h
and-right false b h = ground arith

or_bit_row :
    (x k : ℕ)
    → x < 256
    → k < 8
    → (ltb (bit_or x (2 ^ k % 256)) 256
        && holds_below (λ j. same (has_bit (bit_or x (2 ^ k % 256)) j) (k == j || has_bit x j)) 8)
      ≡ true
or_bit_row x k hx hk = holds_below-at _ 8 k hk (holds_below-at _ 256 x hx or_bit_table)

pub bit_or-lt : (x k : ℕ) → x < 256 → k < 8 → bit_or x (2 ^ k % 256) < 256
bit_or-lt x k hx hk =
    let h : ltb (bit_or x (2 ^ k % 256)) 256 ≡ true = and-left _ _ (or_bit_row x k hx hk) in
    ground arith

pub has_bit-or :
    (x k j : ℕ)
    → x < 256
    → k < 8
    → j < 8
    → has_bit (bit_or x (2 ^ k % 256)) j ≡ (k == j || has_bit x j)
has_bit-or x k j hx hk hj =
    same→eq _ _ (holds_below-at _ 8 j hj (and-right _ _ (or_bit_row x k hx hk)))

pub zero-bit_and : (b : ℕ) → bit_and 0 b ≡ 0
zero-bit_and b = bit_and-bitwise 0 b
