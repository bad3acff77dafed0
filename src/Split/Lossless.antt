-- ===== src/Split/Lossless.antt =====
-- The text that the tokens of the scalar splitter (tokenizer.go) spell, and their number.
use tipping.Base.{
  ℕ, zero, suc, ◌+◌, ◌≤◌, ◌≡◌, refl, sym, ◌∙◌, List, [], ◌∷◌, ◌++◌, none, some, length, take, drop,
  Bytes, append_assoc, append-nil, take-append-drop, length-drop, length-append, arith,
  Option-cases, inl, inr,
}
use tipping.Utf8.{decode_rune-size, Unicode}
use tipping.Symbols.{SymbolTable}
use tipping.Token.{Token, TokenKind}
use tipping.Split.{
  token_with, piece_at, flush, split_loop, append_split_token_scalar, count_flush, count_loop,
  split_token_count,
}

-- The text that tokens spell.
abbrev pub text_of : List Token → Bytes
text_of [] = []
text_of (k ∷ ks) = k.slice ++ text_of ks

pub text_of-append : (xs ys : List Token) → text_of (xs ++ ys) ≡ text_of xs ++ text_of ys
text_of-append [] ys = refl
text_of-append (x ∷ xs) ys = simp (text_of-append xs ys, append_assoc)

pub piece_at-size :
    (t : SymbolTable) (b : ℕ) (s : Bytes)
    → (1 ≤ (piece_at t (b ∷ s)).size) × ((piece_at t (b ∷ s)).size ≤ suc (length s))
unfolding piece_at
piece_at-size t b s = ground (arith, decode_rune-size b s)

text_of-flush :
    (u : Unicode) (t : SymbolTable) (cur : Bytes) (tokens : List Token)
    → text_of (flush u t cur tokens) ≡ text_of tokens ++ cur
unfolding flush
text_of-flush u t [] tokens = sym (append-nil _)
text_of-flush u t (b ∷ cur) tokens = simp (text_of-append, append-nil)

drop-piece-le :
    (t : SymbolTable) (b : ℕ) (s : Bytes) (fuel : ℕ)
    → length (b ∷ s) ≤ suc fuel
    → length (drop (piece_at t (b ∷ s)).size (b ∷ s)) ≤ fuel
drop-piece-le t b s fuel h =
    omega (arith, piece_at-size t b s, length-drop (piece_at t (b ∷ s)).size (b ∷ s))

-- One round of the loop, inside a segment and at the end of one.
module _ (fuel : ℕ) (u : Unicode) (t : SymbolTable) (cur : Bytes) (b : ℕ) (s : Bytes) where
  pub split_loop-inside :
      (tokens : List Token)
      → (piece_at t (b ∷ s)).boundary ≡ none
      → split_loop (suc fuel) u t cur (b ∷ s) tokens
        ≡ split_loop fuel u t
            (cur ++ take (piece_at t (b ∷ s)).size (b ∷ s))
            (drop (piece_at t (b ∷ s)).size (b ∷ s))
            tokens
  unfolding split_loop
  split_loop-inside tokens e = rw (e, split_loop)

  pub split_loop-cut :
      (tokens : List Token) {k : TokenKind}
      → (piece_at t (b ∷ s)).boundary ≡ some k
      → split_loop (suc fuel) u t cur (b ∷ s) tokens
        ≡ split_loop fuel u t [] (drop (piece_at t (b ∷ s)).size (b ∷ s)) (
            flush u t cur tokens
            ++ record { kind = k; slice = take (piece_at t (b ∷ s)).size (b ∷ s) } ∷ [])
  unfolding split_loop
  split_loop-cut tokens e = rw (e, split_loop)

module _ (fuel : ℕ) (t : SymbolTable) (cur : Bytes) (b : ℕ) (s : Bytes) (count : ℕ) where
  count_loop-inside :
      (piece_at t (b ∷ s)).boundary ≡ none
      → count_loop (suc fuel) t cur (b ∷ s) count
        ≡ count_loop fuel t
            (cur ++ take (piece_at t (b ∷ s)).size (b ∷ s))
            (drop (piece_at t (b ∷ s)).size (b ∷ s))
            count
  unfolding count_loop
  count_loop-inside e = rw (e, count_loop)

  count_loop-cut :
      {k : TokenKind}
      → (piece_at t (b ∷ s)).boundary ≡ some k
      → count_loop (suc fuel) t cur (b ∷ s) count
        ≡ count_loop fuel t [] (drop (piece_at t (b ∷ s)).size (b ∷ s)) (count_flush cur count + 1)
  unfolding count_loop
  count_loop-cut e = rw (e, count_loop)

text_of-split_loop :
    (fuel : ℕ) (u : Unicode) (t : SymbolTable) (cur msg : Bytes) (tokens : List Token)
    → length msg ≤ fuel
    → text_of (split_loop fuel u t cur msg tokens) ≡ text_of tokens ++ (cur ++ msg)
unfolding split_loop
text_of-split_loop zero u t cur [] tokens h = rw append-nil (text_of-flush u t cur tokens)
text_of-split_loop (suc fuel) u t cur [] tokens h = rw append-nil (text_of-flush u t cur tokens)
text_of-split_loop zero u t cur (b ∷ s) tokens h = absurd (omega arith)
text_of-split_loop (suc fuel) u t cur (b ∷ s) tokens h =
    let n = (piece_at t (b ∷ s)).size in
    let short : length (drop n (b ∷ s)) ≤ fuel = drop-piece-le t b s fuel h in
    elim (Option-cases (piece_at t (b ∷ s)).boundary) [
      | inl e ↦ rw (split_loop-inside fuel u t cur b s tokens e) (
          text_of-split_loop fuel u t (cur ++ take n (b ∷ s)) (drop n (b ∷ s)) tokens short
          ∙ simp (append_assoc, take-append-drop))
      | inr (k, e) ↦ rw (split_loop-cut fuel u t cur b s tokens e) (
          text_of-split_loop fuel u t [] (drop n (b ∷ s)) _ short
          ∙ simp (text_of-append, text_of-flush, append_assoc, take-append-drop))
    ]

-- The slices that the scalar splitter appends spell the text, for any bytes.
pub append_split_token_scalar-lossless :
    (u : Unicode) (t : SymbolTable) (tokens : List Token) (msg : Bytes)
    → text_of (append_split_token_scalar u t tokens msg) ≡ text_of tokens ++ msg
unfolding append_split_token_scalar
append_split_token_scalar-lossless u t tokens msg =
    text_of-split_loop (length msg) u t [] msg tokens (omega arith)

length-flush :
    (u : Unicode) (t : SymbolTable) (cur : Bytes) (tokens : List Token) (n m : ℕ)
    → length tokens ≡ n + m
    → length (flush u t cur tokens) ≡ n + count_flush cur m
unfolding flush
length-flush u t [] tokens n m h = h
length-flush u t (b ∷ cur) tokens n m h =
    omega (arith, length-append tokens (token_with u t (b ∷ cur) ∷ []))

length-split_loop :
    (fuel : ℕ) (u : Unicode) (t : SymbolTable) (cur msg : Bytes) (tokens : List Token) (n m : ℕ)
    → length msg ≤ fuel
    → length tokens ≡ n + m
    → length (split_loop fuel u t cur msg tokens) ≡ n + count_loop fuel t cur msg m
unfolding split_loop count_loop
length-split_loop zero u t cur [] tokens n m h e = length-flush u t cur tokens n m e
length-split_loop (suc fuel) u t cur [] tokens n m h e = length-flush u t cur tokens n m e
length-split_loop zero u t cur (b ∷ s) tokens n m h e = absurd (omega arith)
length-split_loop (suc fuel) u t cur (b ∷ s) tokens n m h e =
    let k = (piece_at t (b ∷ s)).size in
    let short : length (drop k (b ∷ s)) ≤ fuel = drop-piece-le t b s fuel h in
    elim (Option-cases (piece_at t (b ∷ s)).boundary) [
      | inl c ↦
          rw (split_loop-inside fuel u t cur b s tokens c, count_loop-inside fuel t cur b s m c)
            (length-split_loop fuel u t (cur ++ take k _) _ tokens n m short e)
      | inr (kind, c) ↦
          rw (split_loop-cut fuel u t cur b s tokens c, count_loop-cut fuel t cur b s m c)
            (length-split_loop fuel u t [] _ _ n (count_flush cur m + 1) short
              (omega (arith, length-append {0}, length-flush u t cur tokens n m e)))
    ]

-- splitTokenCount is the number of tokens that the scalar splitter appends.
pub length-append_split_token_scalar :
    (u : Unicode) (t : SymbolTable) (tokens : List Token) (msg : Bytes)
    → length (append_split_token_scalar u t tokens msg) ≡ length tokens + split_token_count t msg
unfolding append_split_token_scalar split_token_count
length-append_split_token_scalar u t tokens msg =
    length-split_loop (length msg) u t [] msg tokens (length tokens) 0 (omega arith) (omega arith)
