-- ===== src/Symbols.antt =====
-- The symbol table of tokenizer.go: one class for each ASCII byte, the same symbols as a table of
-- bits for the vector kernel, and a set of runes for the symbols that are no ASCII characters.
pub mod Lookup
pub mod Sets
use tipping.Base.{
  ℕ, zero, suc, ◌+◌, ◌/◌, ◌%◌, ◌^◌, Bool, true, false, ◌||◌, ◌&&◌, List, [], ◌∷◌, ltb, ◌==◌, leb,
  if◌then◌else◌, get_or, set, replicate, bit_or, Bytes, drop, length,
}
use tipping.Utf8.{decode_rune, rune_self}

-- `classOther`, `classSpace`, `classSymbol`
pub data Class : Type 0 where
  other space symbol : Class

abbrev pub is_other : Class → Bool
is_other other = true
is_other space = false
is_other symbol = false

abbrev pub is_symbol : Class → Bool
is_symbol other = false
is_symbol space = false
is_symbol symbol = true

-- The members of a Go `map[rune]struct{}`; the order is that of an iteration.
abbrev pub SymbolSet : Type 0
SymbolSet = List ℕ

abbrev pub contains : SymbolSet → ℕ → Bool
contains [] x = false
contains (y ∷ ys) x = y == x || contains ys x

-- `set[r] = struct{}{}`
abbrev pub insert : ℕ → SymbolSet → SymbolSet
insert r s = if contains s r then s else r ∷ s

-- `for _, r := range symbols`: each rune takes one byte or more, so the length is enough fuel.
insert_runes : ℕ → Bytes → SymbolSet → SymbolSet
insert_runes fuel [] out = out
insert_runes zero (b ∷ s) out = out
insert_runes (suc fuel) (b ∷ s) out =
    let d = decode_rune (b ∷ s) in insert_runes fuel (drop d.size (b ∷ s)) (insert d.rune out)

unfoldable pub new_symbol_set : Bytes → SymbolSet
unfolding insert_runes
new_symbol_set symbols = insert_runes (length symbols) symbols []

unfoldable pub symbol_set_subset : SymbolSet → SymbolSet → Bool
symbol_set_subset [] sup = true
symbol_set_subset (r ∷ sub) sup = if contains sup r then symbol_set_subset sub sup else false

unfoldable pub symbol_set_equal : SymbolSet → SymbolSet → Bool
unfolding symbol_set_subset
symbol_set_equal a b = if length a == length b then symbol_set_subset a b else false

pub record SymbolTable : Type 0 where
  pub class : List Class
  pub sym_lo : List ℕ
  pub non_ascii : SymbolSet

unfoldable pub ascii_space : ℕ → Bool
ascii_space b = b == 0x20 || b == 0x09 || b == 0x0A || b == 0x0B || b == 0x0C || b == 0x0D

-- The first loop of `newSymbolTable`, over the `n` bytes from `b` on.
unfoldable pub space_classes : ℕ → ℕ → List Class
unfolding ascii_space
space_classes zero b = []
space_classes (suc n) b = (if ascii_space b then space else other) ∷ space_classes n (b + 1)

-- The body of the second loop. `r & 0xF` is `r % 16` and `r >> 4` is `r / 16`.
unfoldable pub add_symbol : SymbolTable → ℕ → SymbolTable
add_symbol t r =
    if ltb r 128
    then record {
      class = if is_other (get_or t.class r other) then set t.class r symbol else t.class;
      sym_lo = set t.sym_lo (r % 16) (bit_or (get_or t.sym_lo (r % 16) 0) (2 ^ (r / 16) % 256));
      non_ascii = t.non_ascii;
    }
    else record t { non_ascii = insert r t.non_ascii }

unfoldable pub add_symbols : SymbolTable → SymbolSet → SymbolTable
unfolding add_symbol
add_symbols t [] = t
add_symbols t (r ∷ rs) = add_symbols (add_symbol t r) rs

unfoldable pub empty_table : SymbolTable
unfolding space_classes
empty_table = record { class = space_classes 128 0; sym_lo = replicate 16 0; non_ascii = [] }

unfoldable pub new_symbol_table : SymbolSet → SymbolTable
new_symbol_table symbols = add_symbols empty_table symbols

abbrev pub class_of : SymbolTable → ℕ → Class
class_of t b = get_or t.class b other

unfoldable pub is_symbol_rune : SymbolTable → ℕ → Bool
is_symbol_rune t r = if ltb r 128 then is_symbol (class_of t r) else contains t.non_ascii r
