-- ===== src/Simd/Segment.antt =====
-- The accumulated class bits of an open segment (tokenize_simd.go), and its kind.
use tipping.Base.{
  ℕ, ◌<◌, ◌≡◌, refl, Bool, true, false, ◌&&◌, bit_and, arith, if◌then◌else◌, List, [], ◌∷◌, ◌++◌,
  some, Bytes, All, All-append,
}
use tipping.Utf8.{Unicode}
use tipping.Token.{Token, impure}
use tipping.Symbols.{other, SymbolTable, class_of}
use tipping.Split.{ascii_letter, ascii_digit, scan_ascii, kind_with, token_with, flush, single_kind}
use tipping.Simd.{segment_kind, segment_token, flush_segment}
use tipping.Simd.Classes.{masked, IsClass, bit_and-IsMeet}

abbrev pub every : (ℕ → Bool) → Bytes → Bool
every p [] = true
every p (b ∷ s) = p b && every p s

every-snoc : (p : ℕ → Bool) (xs : Bytes) (b : ℕ) → every p (xs ++ b ∷ []) ≡ (every p xs && p b)
every-snoc p [] b = ground arith
every-snoc p (x ∷ xs) b = ground (arith, every-snoc p xs b)

-- The bytes of an open segment: ASCII, and no boundaries.
abbrev pub IsInner : SymbolTable → ℕ → Type 0
IsInner t b = (b < 128) × (class_of t b ≡ other)

-- The accumulator holds the two bits that describe the open segment.
pub record Tracks (t : SymbolTable) (cur : Bytes) (acc : ℕ) : Type 0 where
  pub inner : All (IsInner t) cur
  pub below : acc < 256
  pub letters : masked acc 4 ≡ every ascii_letter cur
  pub digits : masked acc 8 ≡ every ascii_digit cur

pub Tracks-nil : (t : SymbolTable) → Tracks t [] 0xFF
Tracks-nil t = record { inner = tt; below = omega arith; letters = refl; digits = refl }

pub Tracks-snoc :
    (t : SymbolTable) (cur : Bytes) (acc b c : ℕ) (y : Bool)
    → Tracks t cur acc
    → IsInner t b
    → IsClass y b c
    → Tracks t (cur ++ b ∷ []) (bit_and acc c)
Tracks-snoc t cur acc b c y h i k =
    let m = bit_and-IsMeet acc c h.below k.below in
    record {
      inner = All-append (IsInner t) cur (b ∷ []) h.inner (i, tt);
      below = m.below;
      letters = rw (m.letter, h.letters, k.letter, every-snoc ascii_letter cur b);
      digits = rw (m.digit, h.digits, k.digit, every-snoc ascii_digit cur b);
    }

scan_ascii-inner :
    (t : SymbolTable) (cur : Bytes) (l d : Bool)
    → All (IsInner t) cur
    → scan_ascii cur l d ≡ some (every ascii_letter cur && l, every ascii_digit cur && d)
unfolding scan_ascii
scan_ascii-inner t [] l d h = refl
scan_ascii-inner t (b ∷ s) l d (hb, h) = ground (
  arith,
  scan_ascii-inner t s (if ascii_letter b then l else false) (if ascii_digit b then d else false) h,
)

single_kind-inner :
    (t : SymbolTable) (b : ℕ) (cur : Bytes) → IsInner t b → single_kind t (b ∷ cur) ≡ impure
single_kind-inner t b [] (_, e) = rw e
single_kind-inner t b (c ∷ cur) h = refl

segment_kind-inner :
    (u : Unicode) (t : SymbolTable) (b : ℕ) (cur : Bytes) (acc : ℕ)
    → Tracks t (b ∷ cur) acc
    → segment_kind acc ≡ kind_with u t (b ∷ cur)
unfolding segment_kind kind_with
segment_kind-inner u t b cur acc h =
    rw (scan_ascii-inner t (b ∷ cur) true true h.inner, kind_with)
      (ground (arith, h.letters, h.digits, single_kind-inner t b cur h.inner.0))

pub flush-segment :
    (u : Unicode) (t : SymbolTable) (cur : Bytes) (acc : ℕ) (tokens : List Token)
    → Tracks t cur acc
    → flush_segment cur acc tokens ≡ flush u t cur tokens
unfolding flush_segment flush
flush-segment u t [] acc tokens h = refl
flush-segment u t (b ∷ cur) acc tokens h =
    unfold segment_token token_with in cc (segment_kind-inner u t b cur acc h)
