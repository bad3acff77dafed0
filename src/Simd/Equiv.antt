-- ===== src/Simd/Equiv.antt =====
-- The loop over class bytes (tokenize_simd.go) beside the scalar loop (tokenizer.go).
use tipping.Base.{
  ℕ, zero, suc, ◌<◌, ◌≤◌, ◌≡◌, refl, ap, ◌∙◌, Bool, true, false, ◌||◌, leb, ◌==◌, bit_and, arith,
  if◌then◌else◌, List, [], ◌∷◌, ◌++◌, none, some, length, Bytes, AreBytes, Bool-cases, Option-cases,
  inl, inr,
}
use tipping.Utf8.{Unicode, rune_self}
use tipping.Token.{Token, TokenKind, symbolic, whitespace}
use tipping.Symbols.{
  Class, other, space, symbol, SymbolSet, SymbolTable, contains, class_of, new_symbol_table,
}
use tipping.Symbols.Lookup.{class_of-new_symbol_table, has_bit-new_symbol_table}
use tipping.Split.{piece_at, ascii_boundary, split_loop, append_split_token_scalar}
use tipping.Split.Lossless.{split_loop-inside, split_loop-cut}
use tipping.Simd.{
  class_boundary_bits, classify_byte, classify_bytes, symbol_bit, flush_segment, simd_loop,
  append_split_token_simd, append_split_token,
}
use tipping.Simd.Classes.{masked, IsClass, classify_with-IsClass}
use tipping.Simd.Segment.{Tracks, Tracks-nil, Tracks-snoc, flush-segment}

-- A text has a byte outside ASCII.
abbrev pub has_non_ascii : Bytes → Bool
has_non_ascii [] = false
has_non_ascii (b ∷ s) = leb rune_self b || has_non_ascii s

module _ (c : ℕ) (classes : List ℕ) (b : ℕ) (s cur : Bytes) (acc : ℕ) (tokens : List Token) where
  simd_loop-inside :
      masked c class_boundary_bits ≡ false
      → simd_loop (c ∷ classes) (b ∷ s) cur acc tokens
        ≡ simd_loop classes s (cur ++ b ∷ []) (bit_and acc c) tokens
  unfolding simd_loop
  simd_loop-inside h =
      let e : (bit_and c class_boundary_bits == 0) ≡ true = ground arith in rw (e, simd_loop)

  simd_loop-stop :
      masked c class_boundary_bits ≡ true
      → masked c 16 ≡ true
      → simd_loop (c ∷ classes) (b ∷ s) cur acc tokens ≡ none
  unfolding simd_loop
  simd_loop-stop h k =
      let e : (bit_and c class_boundary_bits == 0) ≡ false = ground arith in
      let f : (bit_and c 16 == 0) ≡ false = ground arith in rw (e, simd_loop) (rw f)

  simd_loop-cut :
      {kind : TokenKind}
      → masked c class_boundary_bits ≡ true
      → masked c 16 ≡ false
      → (if masked c 1 then whitespace else symbolic) ≡ kind
      → simd_loop (c ∷ classes) (b ∷ s) cur acc tokens
        ≡ simd_loop classes s [] 0xFF
            (flush_segment cur acc tokens ++ record { kind = kind; slice = b ∷ [] } ∷ [])
  unfolding simd_loop
  simd_loop-cut h k w =
      let e : (bit_and c class_boundary_bits == 0) ≡ false = ground arith in
      let f : (bit_and c 16 == 0) ≡ true = ground arith in rw (e, simd_loop) (rw f (cc w))

piece_at-ascii :
    (t : SymbolTable) (b : ℕ) (s : Bytes)
    → b < 128
    → ((piece_at t (b ∷ s)).size ≡ 1)
      × ((piece_at t (b ∷ s)).boundary ≡ ascii_boundary (class_of t b))
unfolding piece_at
piece_at-ascii t b s h = ground arith

module _ (symbols : SymbolSet) (u : Unicode) where
  abbrev table : SymbolTable
  table = new_symbol_table symbols

  -- The class byte of `b`, and the symbol bit that it is made with.
  abbrev class_byte : ℕ → ℕ
  class_byte b = classify_byte table.sym_lo b

  class_byte-IsClass : (b : ℕ) → b < 256 → IsClass (symbol_bit table.sym_lo b) b (class_byte b)
  unfolding classify_byte
  class_byte-IsClass b h = classify_with-IsClass (symbol_bit table.sym_lo b) b h

  symbol_bit-table : (b : ℕ) → b < 128 → symbol_bit table.sym_lo b ≡ contains symbols b
  unfolding symbol_bit
  symbol_bit-table b h = rw (has_bit-new_symbol_table symbols b h) (ground arith)

  masked-non_ascii :
      (b : ℕ)
      → b < 256
      → 128 ≤ b
      → (masked (class_byte b) class_boundary_bits ≡ true) × (masked (class_byte b) 16 ≡ true)
  masked-non_ascii b h k =
      let c = class_byte-IsClass b h in (ground (arith, c.boundary), ground (arith, c.non_ascii))

  masked-other :
      (b : ℕ)
      → b < 128
      → class_of table b ≡ other
      → masked (class_byte b) class_boundary_bits ≡ false
  masked-other b h e =
      let c = class_byte-IsClass b (omega arith) in
      ground (arith, c.boundary, symbol_bit-table b h, class_of-new_symbol_table symbols b h)

  masked-boundary :
      (b : ℕ) (k : TokenKind)
      → b < 128
      → ascii_boundary (class_of table b) ≡ some k
      → (masked (class_byte b) class_boundary_bits ≡ true)
        × (masked (class_byte b) 16 ≡ false)
        × ((if masked (class_byte b) 1 then whitespace else symbolic) ≡ k)
  masked-boundary b k h e =
      let c = class_byte-IsClass b (omega arith) in
      let y = symbol_bit-table b h in
      let w = class_of-new_symbol_table symbols b h in
      (
        ground (arith, c.boundary, y, w),
        ground (arith, c.non_ascii),
        ground (arith, c.is_space, y, w),
      )

  ascii_boundary-none : (k : Class) → ascii_boundary k ≡ none → k ≡ other
  ascii_boundary-none other h = refl
  ascii_boundary-none space h = cc
  ascii_boundary-none symbol h = cc

  simd_loop-eq :
      (fuel : ℕ) (msg cur : Bytes) (acc : ℕ) (tokens : List Token)
      → length msg ≤ fuel
      → AreBytes msg
      → Tracks table cur acc
      → simd_loop (classify_bytes table.sym_lo msg) msg cur acc tokens
        ≡ (if has_non_ascii msg then none else some (split_loop fuel u table cur msg tokens))
  unfolding simd_loop classify_bytes split_loop
  simd_loop-eq zero [] cur acc tokens h hm hc = ap some (flush-segment u table cur acc tokens hc)
  simd_loop-eq (suc fuel) [] cur acc tokens h hm hc =
      ap some (flush-segment u table cur acc tokens hc)
  simd_loop-eq zero (b ∷ s) cur acc tokens h hm hc = absurd (omega arith)
  simd_loop-eq (suc fuel) (b ∷ s) cur acc tokens h (hb, hs) hc =
      let classes = classify_bytes table.sym_lo s in
      elim (Bool-cases (leb rune_self b)) [
        | inl e ↦
            let (p, q) = masked-non_ascii b hb (ground arith) in
            rw (simd_loop-stop (class_byte b) classes b s cur acc tokens p q, e)
        | inr e ↦
            let low : b < 128 = ground arith in
            let (one, bound) = piece_at-ascii table b s low in
            elim (Option-cases (ascii_boundary (class_of table b))) [
              | inl n ↦
                  let o = ascii_boundary-none _ n in
                  rw
                    (
                      simd_loop-inside (class_byte b) classes b s cur acc tokens
                          (masked-other b low o),
                      e,
                      split_loop-inside fuel u table cur b s tokens (bound ∙ n),
                      one,
                    )
                    (simd_loop-eq fuel s (cur ++ b ∷ []) (bit_and acc (class_byte b)) tokens
                      (omega arith) hs
                      (Tracks-snoc table cur acc b _ _ hc (low, o) (class_byte-IsClass b hb)))
              | inr (k, w) ↦
                  let (p, q, r) = masked-boundary b k low w in
                  rw
                    (
                      simd_loop-cut (class_byte b) classes b s cur acc tokens p q r,
                      e,
                      split_loop-cut fuel u table cur b s tokens (bound ∙ w),
                      one,
                      flush-segment u table cur acc tokens hc,
                    )
                    (simd_loop-eq fuel s [] 0xFF _ (omega arith) hs (Tracks-nil table))
            ]
      ]

  append_split_token_simd-eq :
      (tokens : List Token) (msg : Bytes)
      → AreBytes msg
      → append_split_token_simd table tokens msg
        ≡ (if has_non_ascii msg then none else some (append_split_token_scalar u table tokens msg))
  unfolding append_split_token_simd append_split_token_scalar
  append_split_token_simd-eq tokens msg h =
      simd_loop-eq (length msg) msg [] 0xFF tokens (omega arith) h (Tracks-nil table)

-- The class loop gives up exactly on texts that are not ASCII and else appends the tokens of the
-- scalar splitter.
pub append_split_token_simd-scalar :
    (u : Unicode) (symbols : SymbolSet) (tokens : List Token) (msg : Bytes)
    → AreBytes msg
    → append_split_token_simd (new_symbol_table symbols) tokens msg ≡ (
        if has_non_ascii msg
        then none
        else some (append_split_token_scalar u (new_symbol_table symbols) tokens msg))
append_split_token_simd-scalar u symbols = append_split_token_simd-eq symbols u

-- appendSplitToken appends the tokens of the scalar splitter whether the machine has the vector
-- kernel or not.
pub append_split_token-same_everywhere :
    (simd_tokenize : Bool) (u : Unicode) (symbols : SymbolSet) (tokens : List Token) (msg : Bytes)
    → AreBytes msg
    → append_split_token simd_tokenize u (new_symbol_table symbols) tokens msg
      ≡ append_split_token_scalar u (new_symbol_table symbols) tokens msg
unfolding append_split_token
append_split_token-same_everywhere simd_tokenize u symbols tokens msg h =
    ground (arith, append_split_token_simd-eq symbols u tokens msg h)
