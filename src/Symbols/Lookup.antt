-- ===== src/Symbols/Lookup.antt =====
-- What the table of `newSymbolTable` answers, in terms of the set that it is built from.
use tipping.Base.{
  ℕ, zero, suc, ◌+◌, ◌/◌, ◌%◌, ◌^◌, ◌<◌, ◌≡◌, refl, ap, true, false, ◌||◌, ◌&&◌, [], ◌∷◌, ltb, ◌==◌,
  if◌then◌else◌, get_or, get_or-set, get_or-zeros, length, length-set, bit_or, has_bit, has_bit-or,
  bit_or-lt, zero-bit_and, arith, Bool-cases, inl, inr,
}
use tipping.Symbols.{
  other, space, symbol, is_other, SymbolSet, contains, insert, SymbolTable, ascii_space,
  space_classes, add_symbol, add_symbols, empty_table, new_symbol_table, class_of, is_symbol_rune,
}

-- The table has its fixed sizes, and the words of `sym_lo` are bytes.
pub record IsTable (t : SymbolTable) : Type 0 where
  pub class_length : length t.class ≡ 128
  pub sym_lo_length : length t.sym_lo ≡ 16
  pub sym_lo_bytes : (i : ℕ) → get_or t.sym_lo i 0 < 256

module _ (t : SymbolTable) (r : ℕ) (h : IsTable t) where
  get_sym_lo-add_symbol :
      (i : ℕ)
      → get_or (add_symbol t r).sym_lo i 0 ≡ (
          if ltb r 128
          then (if r % 16 == i
              then bit_or (get_or t.sym_lo (r % 16) 0) (2 ^ (r / 16) % 256)
              else get_or t.sym_lo i 0)
          else get_or t.sym_lo i 0)
  unfolding add_symbol
  get_sym_lo-add_symbol i = elim (Bool-cases (ltb r 128)) [
    | inl e ↦ rw e (get_or-set t.sym_lo (r % 16) i _ 0 (omega (arith, h.sym_lo_length)))
    | inr e ↦ rw e
  ]

  add_symbol-IsTable : IsTable (add_symbol t r)
  add_symbol-IsTable = record {
    class_length = unfold add_symbol in ground (arith, h.class_length, length-set t.class r symbol);
    sym_lo_length =
        unfold add_symbol in
        ground (
          arith,
          h.sym_lo_length,
          length-set t.sym_lo (r % 16) (bit_or (get_or t.sym_lo (r % 16) 0) (2 ^ (r / 16) % 256)),
        );
    sym_lo_bytes = λ i. ground (
      arith,
      get_sym_lo-add_symbol i,
      h.sym_lo_bytes i,
      bit_or-lt (get_or t.sym_lo (r % 16) 0) (r / 16) (h.sym_lo_bytes (r % 16)),
    );
  }

  class_of-add_symbol :
      (b : ℕ)
      → b < 128
      → class_of (add_symbol t r) b ≡ (
          if r == b
          then (if is_other (class_of t b) then symbol else class_of t b)
          else class_of t b)
  unfolding add_symbol
  class_of-add_symbol b hb = ground (arith, h.class_length, get_or-set t.class r b symbol other)

  has_bit-add_symbol :
      (b : ℕ)
      → b < 128
      → has_bit (get_or (add_symbol t r).sym_lo (b % 16) 0) (b / 16)
        ≡ (r == b || has_bit (get_or t.sym_lo (b % 16) 0) (b / 16))
  has_bit-add_symbol b hb = rw (get_sym_lo-add_symbol (b % 16)) (
      ground (
        arith,
        has_bit-or (get_or t.sym_lo (b % 16) 0) (r / 16) (b / 16) (h.sym_lo_bytes (b % 16)),
      ))

-- What the loops over the symbols add up to.
class_of-add_symbols :
    (t : SymbolTable) (rs : SymbolSet) (b : ℕ)
    → IsTable t
    → b < 128
    → class_of (add_symbols t rs) b
      ≡ (if contains rs b && is_other (class_of t b) then symbol else class_of t b)
unfolding add_symbols
class_of-add_symbols t [] b h hb = refl
class_of-add_symbols t (r ∷ rs) b h hb = ground (
  arith,
  class_of-add_symbol t r h b hb,
  class_of-add_symbols (add_symbol t r) rs b (add_symbol-IsTable t r h) hb,
)

has_bit-add_symbols :
    (t : SymbolTable) (rs : SymbolSet) (b : ℕ)
    → IsTable t
    → b < 128
    → has_bit (get_or (add_symbols t rs).sym_lo (b % 16) 0) (b / 16)
      ≡ (contains rs b || has_bit (get_or t.sym_lo (b % 16) 0) (b / 16))
unfolding add_symbols
has_bit-add_symbols t [] b h hb = refl
has_bit-add_symbols t (r ∷ rs) b h hb = ground (
  arith,
  has_bit-add_symbol t r h b hb,
  has_bit-add_symbols (add_symbol t r) rs b (add_symbol-IsTable t r h) hb,
)

contains-eq : (r x : ℕ) (s : SymbolSet) → contains s r ≡ true → r ≡ x → contains s x ≡ true
contains-eq r x s h e = rw e at h

pub contains-insert : (r x : ℕ) (s : SymbolSet) → contains (insert r s) x ≡ (r == x || contains s x)
contains-insert r x s = elim (Bool-cases (contains s r)) [
  | inl e ↦ ground (arith, contains-eq r x s)
  | inr e ↦ ground arith
]

non_ascii-add_symbols :
    (t : SymbolTable) (rs : SymbolSet) (x : ℕ)
    → ltb x 128 ≡ false
    → contains (add_symbols t rs).non_ascii x ≡ (contains rs x || contains t.non_ascii x)
unfolding add_symbols add_symbol
non_ascii-add_symbols t [] x h = refl
non_ascii-add_symbols t (r ∷ rs) x h =
    ground (arith, contains-insert r x t.non_ascii, non_ascii-add_symbols (add_symbol t r) rs x h)

get_or-space_classes :
    (n b i : ℕ)
    → i < n
    → get_or (space_classes n b) i other ≡ (if ascii_space (b + i) then space else other)
unfolding space_classes
get_or-space_classes zero b i h = elim h [ ]
get_or-space_classes (suc n) b zero h = let e : b + 0 ≡ b = omega arith in rw e
get_or-space_classes (suc n) b (suc i) h =
    let e : b + suc i ≡ b + 1 + i = omega arith in
    rw e (get_or-space_classes n (b + 1) i (omega arith))

length-space_classes : (n b : ℕ) → length (space_classes n b) ≡ n
unfolding space_classes
length-space_classes zero b = refl
length-space_classes (suc n) b = ap suc (length-space_classes n (b + 1))

empty_table-IsTable : IsTable empty_table
unfolding empty_table
empty_table-IsTable = record {
  class_length = length-space_classes 128 0;
  sym_lo_length = refl;
  sym_lo_bytes = λ i. omega (arith, get_or-zeros 16 i);
}

class_of-empty_table :
    (b : ℕ) → b < 128 → class_of empty_table b ≡ (if ascii_space b then space else other)
unfolding empty_table
class_of-empty_table b hb =
    let e : 0 + b ≡ b = omega arith in rw e at (get_or-space_classes 128 0 b hb)

sym_lo-empty_table : (i : ℕ) → get_or empty_table.sym_lo i 0 ≡ 0
unfolding empty_table
sym_lo-empty_table i = get_or-zeros 16 i

non_ascii-new_symbol_table :
    (symbols : SymbolSet) (x : ℕ)
    → ltb x 128 ≡ false
    → contains (new_symbol_table symbols).non_ascii x ≡ contains symbols x
unfolding new_symbol_table empty_table
non_ascii-new_symbol_table symbols x h =
    ground (arith, non_ascii-add_symbols empty_table symbols x h)

-- In the table of a symbol set the class of an ASCII byte is space for white space, else symbol
-- for a symbol of the set, else other.
pub class_of-new_symbol_table :
    (symbols : SymbolSet) (b : ℕ)
    → b < 128
    → class_of (new_symbol_table symbols) b
      ≡ (if ascii_space b then space else if contains symbols b then symbol else other)
unfolding new_symbol_table
class_of-new_symbol_table symbols b hb =
    rw
      (class_of-add_symbols empty_table symbols b empty_table-IsTable hb, class_of-empty_table b hb)
      (ground arith)

-- The nibble-indexed bits of symLo answer membership in the symbol set for every ASCII byte.
pub has_bit-new_symbol_table :
    (symbols : SymbolSet) (b : ℕ)
    → b < 128
    → has_bit (get_or (new_symbol_table symbols).sym_lo (b % 16) 0) (b / 16) ≡ contains symbols b
unfolding new_symbol_table
has_bit-new_symbol_table symbols b hb =
    rw
      (
        has_bit-add_symbols empty_table symbols b empty_table-IsTable hb,
        sym_lo-empty_table (b % 16),
        zero-bit_and (2 ^ (b / 16)),
      )
      (ground arith)

-- isSymbolRune answers membership in the symbol set, except that ASCII white space is never a
-- symbol.
pub is_symbol_rune-new_symbol_table :
    (symbols : SymbolSet) (r : ℕ)
    → is_symbol_rune (new_symbol_table symbols) r ≡ (
        if ltb r 128
        then (if ascii_space r then false else contains symbols r)
        else contains symbols r)
unfolding is_symbol_rune
is_symbol_rune-new_symbol_table symbols r =
    ground (arith, class_of-new_symbol_table symbols r, non_ascii-new_symbol_table symbols r)
