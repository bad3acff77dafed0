-- ===== src/Tokenizer/Literal.antt =====
-- The pieces that `appendSplitSpecialLiteral` (tokenizer.go) makes.
use tipping.Base.{
  ℕ, zero, suc, ◌+◌, ◌≤◌, ◌≡◌, refl, List, [], ◌∷◌, some, length, take, drop, Bytes, arith,
  Option-cases, Bool-cases, inl, inr, length-drop, ◌==◌, All, All-append, drop-nil, ◌⊎◌,
}
use tipping.Strings.{has_prefix, index}
use tipping.Strings.Index.{index-none, index-has_prefix, take-has_prefix}
use tipping.Strings.Lacks.{Lacks, take-Lacks}
use tipping.Token.{PreToken, PreTokenKind, unrefined}
use tipping.Tokenizer.{append_raw, count_loop, literal_loop, append_split_special_literal}
use tipping.Tokenizer.Steps.{next_literal, literal_loop-stop, literal_loop-cut}

-- What a pre-token of a split by the literal is.
abbrev pub IsPiece : PreTokenKind → Bytes → PreToken → Type 0
IsPiece kind literal p =
    ((p.kind ≡ kind) × (p.slice ≡ literal)) ⊎ ((p.kind ≡ unrefined) × Lacks literal p.slice)

module _ (l : ℕ) (rest_of_literal : Bytes) (kind : PreTokenKind) where
  abbrev literal : Bytes
  literal = l ∷ rest_of_literal

  abbrev Pieces : List PreToken → Type 0
  Pieces = All (IsPiece kind literal)

  append_raw-Pieces :
      (s : Bytes) (dst : List PreToken) → Lacks literal s → Pieces dst → Pieces (append_raw s dst)
  append_raw-Pieces [] dst h hd = hd
  append_raw-Pieces (b ∷ s) dst h hd = All-append _ dst _ hd (inr (refl, h), tt)

  take-literal :
      (s : Bytes) (i : ℕ) → index s literal ≡ some i → take (length literal) (drop i s) ≡ literal
  take-literal s i h = take-has_prefix (drop i s) literal (index-has_prefix s literal i h)

  literal_loop-Pieces :
      (fuel : ℕ) (rest : Bytes) (dst : List PreToken)
      → length rest ≤ fuel
      → Pieces dst
      → Pieces (literal_loop fuel rest literal kind dst)
  literal_loop-Pieces zero [] dst h hd = unfold literal_loop in hd
  literal_loop-Pieces zero (b ∷ rest) dst h hd = absurd (omega arith)
  literal_loop-Pieces (suc fuel) rest dst h hd = elim (Option-cases (index rest literal)) [
    | inl e ↦
        rw (literal_loop-stop fuel rest literal kind dst e)
          (append_raw-Pieces rest dst (λ j. index-none rest literal j e) hd)
    | inr (i, e) ↦ rw (literal_loop-cut fuel rest literal kind dst e) (
        literal_loop-Pieces fuel (drop (i + length literal) rest)
          (next_literal i rest literal kind dst)
          (omega (arith, length-drop (i + length literal) rest))
          (All-append _ (append_raw (take i rest) dst) _
            (append_raw-Pieces (take i rest) dst (take-Lacks rest l rest_of_literal i e) hd)
            (inl (refl, take-literal rest i e), tt)))
  ]

  count_loop-none :
      (fuel : ℕ) (s : Bytes) → length s ≤ fuel → count_loop fuel s literal ≡ 0 → Lacks literal s
  unfolding count_loop
  count_loop-none zero [] h e = λ j. rw drop-nil (unfold has_prefix in refl)
  count_loop-none zero (b ∷ s) h e = absurd (omega arith)
  count_loop-none (suc fuel) s h e = λ j. index-none s literal j (ground arith)

-- Cutting a text at a literal finds every occurrence that does not overlap an earlier one: each
-- piece is the literal itself, under the kind asked for, or is left over and holds no occurrence
-- of it. The rounds of the loop are enough for every text.
pub append_split_special_literal-IsPiece :
    (msg : Bytes) (l : ℕ) (literal : Bytes) (kind : PreTokenKind)
    → All (IsPiece kind (l ∷ literal)) (append_split_special_literal [] msg (l ∷ literal) kind)
unfolding append_split_special_literal
append_split_special_literal-IsPiece msg l literal kind =
    elim (Bool-cases (count_loop (length msg) msg (l ∷ literal) == 0)) [
      | inl e ↦ rw e (
        inr (refl, count_loop-none l literal kind (length msg) msg (omega arith) (ground arith)),
        tt,
      )
      | inr e ↦ rw e (literal_loop-Pieces l literal kind (length msg) msg [] (omega arith) tt)
    ]
