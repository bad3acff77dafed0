-- ===== src/Retokenize/Size.antt =====
-- The text and the size of a row that `retokenizeTokensWithSymbolsInto` (parser.go) splits again.
use tipping.Base.{
  subst, ℕ, zero, suc, ◌+◌, ◌-◌, ◌≤◌, ◌≡◌, refl, sym, ap, ◌∙◌, Bool, List, [], ◌∷◌, ◌++◌, some,
  length, take, drop, Bytes, ltb, if◌then◌else◌, inl, inr, Bool-cases, Option-cases, arith,
  AreBytes, All, take-append-drop, append_assoc, append-nil, length-append,
}
use tipping.Utf8.{Unicode}
use tipping.Symbols.{SymbolSet, new_symbol_table}
use tipping.Token.{Token}
use tipping.Split.{split_token_count}
use tipping.Split.Lossless.{
  text_of, text_of-append, append_split_token_scalar-lossless, length-append_split_token_scalar,
}
use tipping.Simd.{append_split_token}
use tipping.Simd.Equiv.{append_split_token-same_everywhere}
use tipping.Retokenize.{
  is_impure, find_start, needed_for, split_tokens, retokenize_tokens, needed_capacity,
}

-- The slices of a row are texts of bytes.
abbrev pub HasBytes : List Token → Type 0
HasBytes = All (λ tok. AreBytes tok.slice)

HasBytes-drop : (n : ℕ) (tokens : List Token) → HasBytes tokens → HasBytes (drop n tokens)
HasBytes-drop zero tokens h = h
HasBytes-drop (suc n) [] h = tt
HasBytes-drop (suc n) (tok ∷ tokens) (h, hs) = HasBytes-drop n tokens hs

module _ (simd : Bool) (u : Unicode) (symbols : SymbolSet) where
  append_split_token-text :
      (out : List Token) (msg : Bytes)
      → AreBytes msg
      → text_of (append_split_token simd u (new_symbol_table symbols) out msg) ≡ text_of out ++ msg
  append_split_token-text out msg h =
      ap text_of (append_split_token-same_everywhere simd u symbols out msg h)
      ∙ append_split_token_scalar-lossless u (new_symbol_table symbols) out msg

  append_split_token-length :
      (out : List Token) (msg : Bytes)
      → AreBytes msg
      → length (append_split_token simd u (new_symbol_table symbols) out msg)
        ≡ length out + split_token_count (new_symbol_table symbols) msg
  append_split_token-length out msg h =
      ap length (append_split_token-same_everywhere simd u symbols out msg h)
      ∙ length-append_split_token_scalar u (new_symbol_table symbols) out msg

  text_of-split_tokens :
      (tokens out : List Token)
      → HasBytes tokens
      → text_of (split_tokens simd u (new_symbol_table symbols) tokens out)
        ≡ text_of out ++ text_of tokens
  unfolding split_tokens
  text_of-split_tokens [] out h = sym (append-nil _)
  text_of-split_tokens (tok ∷ tokens) out (h, hs) = elim (Bool-cases (is_impure tok.kind)) [
    | inl e ↦
        let next = append_split_token simd u (new_symbol_table symbols) out tok.slice in
        rw e (
          text_of-split_tokens tokens next hs
          ∙ ap (λ s. s ++ text_of tokens) (append_split_token-text out tok.slice h)
          ∙ append_assoc (text_of out) tok.slice (text_of tokens))
    | inr e ↦ rw e (
        text_of-split_tokens tokens (out ++ tok ∷ []) hs
        ∙ simp (text_of-append, append_assoc, append-nil))
  ]

  length-split_tokens :
      (tokens out : List Token) (needed : ℕ)
      → HasBytes tokens
      → length out + length tokens ≤ needed
      → length (split_tokens simd u (new_symbol_table symbols) tokens out)
        ≤ needed_for (new_symbol_table symbols) tokens needed
  unfolding split_tokens needed_for
  length-split_tokens [] out needed h fits = omega arith
  length-split_tokens (tok ∷ tokens) out needed (h, hs) fits =
      elim (Bool-cases (is_impure tok.kind)) [
        | inl e ↦
            let next = append_split_token simd u (new_symbol_table symbols) out tok.slice in
            let count = split_token_count (new_symbol_table symbols) tok.slice in
            let size = append_split_token-length out tok.slice h in
            rw e (
              length-split_tokens tokens next (if ltb 1 count then needed + (count - 1) else needed)
                hs (ground arith))
        | inr e ↦ rw e (
            length-split_tokens tokens (out ++ tok ∷ []) needed hs
              (omega (arith, length-append out (tok ∷ []))))
      ]

-- Splitting the impure tokens of a row of byte texts again keeps the row's text.
pub text_of-retokenize_tokens :
    (simd : Bool) (u : Unicode) (symbols : SymbolSet) (tokens : List Token)
    → HasBytes tokens
    → text_of (retokenize_tokens simd u (new_symbol_table symbols) tokens) ≡ text_of tokens
unfolding retokenize_tokens
text_of-retokenize_tokens simd u symbols tokens h =
    elim (Option-cases (find_start (new_symbol_table symbols) 0 tokens)) [
      | inl e ↦ rw (e, retokenize_tokens) refl
      | inr (n, e) ↦
          rw (e, retokenize_tokens)
            (text_of-split_tokens simd u symbols (drop n tokens) (take n tokens)
                (HasBytes-drop n tokens h)
              ∙ sym (text_of-append (take n tokens) (drop n tokens))
              ∙ ap text_of (take-append-drop n tokens))
    ]

-- The row fits the capacity that it asks for.
pub length-retokenize_tokens :
    (simd : Bool) (u : Unicode) (symbols : SymbolSet) (tokens : List Token) (needed : ℕ)
    → HasBytes tokens
    → needed_capacity (new_symbol_table symbols) tokens ≡ some needed
    → length (retokenize_tokens simd u (new_symbol_table symbols) tokens) ≤ needed
unfolding retokenize_tokens needed_capacity
length-retokenize_tokens simd u symbols tokens needed h f =
    elim (Option-cases (find_start (new_symbol_table symbols) 0 tokens)) [
      | inl e ↦ absurd (cc)
      | inr (n, e) ↦
          let size : length (take n tokens) + length (drop n tokens) ≡ length tokens =
            sym (length-append (take n tokens) (drop n tokens))
            ∙ ap length (take-append-drop n tokens) in
          let value : needed_for (new_symbol_table symbols) (drop n tokens) (length tokens)
              ≡ needed =
            ground (arith) in
          subst (λ k. length (retokenize_tokens simd u (new_symbol_table symbols) tokens) ≤ k) value
            (rw (e, retokenize_tokens)
              (length-split_tokens simd u symbols (drop n tokens) (take n tokens) (length tokens)
                (HasBytes-drop n tokens h) (omega arith)))
    ]
