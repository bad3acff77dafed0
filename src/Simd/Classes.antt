-- ===== src/Simd/Classes.antt =====
-- What the class bytes say, checked over all bytes.
use tipping.Base.{
  ℕ, ◌<◌, ◌≡◌, refl, Bool, true, false, ◌||◌, ◌&&◌, not, ltb, leb, ◌==◌, bit_and, arith,
  holds_below, holds_below-at, same,
}
use tipping.Split.{ascii_letter, ascii_digit}
use tipping.Symbols.{ascii_space}
use tipping.Simd.{classify_with, class_boundary_bits}

-- Whether the masked bits are set.
abbrev pub masked : ℕ → ℕ → Bool
masked x mask = not (bit_and x mask == 0)

abbrev describes : Bool → ℕ → Bool
describes y b =
    let c = classify_with y b in
    ltb c 32
    && same (masked c class_boundary_bits) (ascii_space b || (y || leb 0x80 b))
    && same (masked c 16) (leb 0x80 b)
    && same (masked c 1) (ascii_space b)
    && same (masked c 4) (ascii_letter b)
    && same (masked c 8) (ascii_digit b)

describes_symbol : holds_below (describes true) 256 ≡ true
unfolding holds_below classify_with ascii_space ascii_letter ascii_digit
describes_symbol = refl

describes_plain : holds_below (describes false) 256 ≡ true
unfolding holds_below classify_with ascii_space ascii_letter ascii_digit
describes_plain = refl

pub record IsClass (y : Bool) (b c : ℕ) : Type 0 where
  pub below : c < 32
  pub boundary : masked c class_boundary_bits ≡ (ascii_space b || (y || leb 0x80 b))
  pub non_ascii : masked c 16 ≡ leb 0x80 b
  pub is_space : masked c 1 ≡ ascii_space b
  pub letter : masked c 4 ≡ ascii_letter b
  pub digit : masked c 8 ≡ ascii_digit b

describes→IsClass : (y : Bool) (b : ℕ) → describes y b ≡ true → IsClass y b (classify_with y b)
describes→IsClass y b h = record {
  below = ground arith;
  boundary = ground arith;
  non_ascii = ground arith;
  is_space = ground arith;
  letter = ground arith;
  digit = ground arith;
}

pub classify_with-IsClass : (y : Bool) (b : ℕ) → b < 256 → IsClass y b (classify_with y b)
classify_with-IsClass true b h =
    describes→IsClass true b (holds_below-at _ 256 b h describes_symbol)
classify_with-IsClass false b h =
    describes→IsClass false b (holds_below-at _ 256 b h describes_plain)

abbrev meets : ℕ → ℕ → Bool
meets acc c =
    ltb (bit_and acc c) 256
    && same (masked (bit_and acc c) 4) (masked acc 4 && masked c 4)
    && same (masked (bit_and acc c) 8) (masked acc 8 && masked c 8)

-- Folding a class into the accumulator keeps a bit exactly when both have it.
and_bits_table : holds_below (λ acc. holds_below (λ c. meets acc c) 32) 256 ≡ true
unfolding holds_below
and_bits_table = refl

pub record IsMeet (acc c : ℕ) : Type 0 where
  pub below : bit_and acc c < 256
  pub letter : masked (bit_and acc c) 4 ≡ (masked acc 4 && masked c 4)
  pub digit : masked (bit_and acc c) 8 ≡ (masked acc 8 && masked c 8)

pub bit_and-IsMeet : (acc c : ℕ) → acc < 256 → c < 32 → IsMeet acc c
bit_and-IsMeet acc c ha hc =
    let h : meets acc c ≡ true =
      holds_below-at _ 32 c hc (holds_below-at _ 256 acc ha and_bits_table) in
    record { below = ground arith; letter = ground arith; digit = ground arith }
