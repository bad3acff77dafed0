-- ===== src/TokenRecord/Pairs.antt =====
-- `newTokenPairID` (token_record.go) packs two ids into one number.
use Prim.Native.Nat.{digits, max, bit_or-bitwise}
use tipping.Base.{
  ◌||◌, ◌&&◌, ◌==◌, ℕ, zero, suc, ◌+◌, ◌*◌, ◌/◌, ◌%◌, ◌^◌, ◌≤◌, ◌<◌, ◌≡◌, refl, ◌∙◌, ltb,
  if◌then◌else◌, bit_or, arith,
}
use tipping.TokenRecord.{new_token_pair_id}

abbrev power : ℕ → ℕ
power zero = 1
power (suc k) = power k * 2

or_digits : ℕ → ℕ → ℕ → ℕ
or_digits = digits (λ b. b) max

or_digits-zero : (n a : ℕ) → a ≤ n → or_digits n a 0 ≡ a
unfolding or_digits
or_digits-zero zero zero h = refl
or_digits-zero zero (suc a) h = absurd (omega arith)
or_digits-zero (suc n) zero h = refl
or_digits-zero (suc n) (suc a) h = omega (arith, or_digits-zero n (suc a / 2) (omega arith))

or_digits-of_zero : (n b : ℕ) → or_digits n 0 b ≡ b
unfolding or_digits
or_digits-of_zero zero b = refl
or_digits-of_zero (suc n) b = refl

-- One step, at an even number.
or_digits-even :
    (n p b c : ℕ)
    → p * 2 ≤ n
    → ((m : ℕ) → p ≤ m → or_digits m p (b / 2) ≡ c)
    → c ≡ p + b / 2
    → or_digits n (p * 2) b ≡ p * 2 + b
unfolding or_digits
or_digits-even n zero b c h ih e = or_digits-of_zero n b ∙ omega arith
or_digits-even zero (suc p) b c h ih e = absurd (omega arith)
or_digits-even (suc n) (suc p) b c h ih e =
    let q = suc (p * 2) in
    let even : suc p * 2 ≡ suc q = omega arith in
    let half : suc q / 2 ≡ suc p = omega arith in
    let low : suc q % 2 ≡ 0 = omega arith in
    rw even (rw (half, low) (omega (arith, ih n (omega arith))))

or_digits-shift :
    (k n a b : ℕ) → a * power k ≤ n → b < power k → or_digits n (a * power k) b ≡ a * power k + b
or_digits-shift zero n a b h lt =
    let none : b ≡ 0 = omega arith in
    let one : a * 1 ≡ a = omega arith in
    rw (none, one) (or_digits-zero n a (omega arith) ∙ omega arith)
or_digits-shift (suc k) n a b h lt =
    let p = a * power k in
    let e : a * (power k * 2) ≡ p * 2 = grind arith in
    rw e (
      or_digits-even n p b (p + b / 2) (omega arith)
        (λ m le. or_digits-shift k m a (b / 2) le (omega arith)) refl)

bit_or-shift : (a b : ℕ) → b < 2 ^ 32 → bit_or (a * 2 ^ 32) b ≡ a * 2 ^ 32 + b
unfolding or_digits
bit_or-shift a b h = simp bit_or-bitwise (or_digits-shift 32 (a * 2 ^ 32) a b (omega arith) h)

-- The pair, the larger id first.
larger : ℕ → ℕ → ℕ
larger a b = if ltb a b then b else a

smaller : ℕ → ℕ → ℕ
smaller a b = if ltb a b then a else b

new_token_pair_id-sum :
    (a b : ℕ) → a < 2 ^ 32 → b < 2 ^ 32 → new_token_pair_id a b ≡ larger a b * 2 ^ 32 + smaller a b
unfolding new_token_pair_id larger smaller
new_token_pair_id-sum a b h k =
    let small_a : a * 2 ^ 32 % 2 ^ 64 ≡ a * 2 ^ 32 = omega arith in
    let small_b : b * 2 ^ 32 % 2 ^ 64 ≡ b * 2 ^ 32 = omega arith in
    rw (small_a, small_b) (ground (arith, bit_or-shift a b k, bit_or-shift b a h))

-- Two pair ids are equal just for the same two ids, in either order.
pub new_token_pair_id-eq :
    (a b c d : ℕ)
    → a < 2 ^ 32
    → b < 2 ^ 32
    → c < 2 ^ 32
    → d < 2 ^ 32
    → (new_token_pair_id a b == new_token_pair_id c d) ≡ (a == c && b == d || a == d && b == c)
unfolding larger smaller
new_token_pair_id-eq a b c d ha hb hc hd =
    rw (new_token_pair_id-sum a b ha hb, new_token_pair_id-sum c d hc hd) (ground arith)
