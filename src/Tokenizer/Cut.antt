-- ===== src/Tokenizer/Cut.antt =====
-- What `appendSplitSpecialLiteral` (tokenizer.go) makes of a text.
use tipping.Base.{◌≡◌, ℕ, List, [], ◌∷◌, Bytes, All}
use tipping.Token.{PreToken, PreTokenKind}
use tipping.Tokenizer.{append_split_special_literal}
use tipping.Tokenizer.Steps.{pre_text}
use tipping.Tokenizer.Literal.{IsPiece, append_split_special_literal-IsPiece}
use tipping.Tokenizer.Lossless.{pre_text-append_split_special_literal}

-- The pre-tokens spell the text, and each is a match, or unrefined and without an occurrence.
abbrev pub IsCut : PreTokenKind → Bytes → Bytes → List PreToken → Type 0
IsCut kind literal msg pre = (pre_text pre ≡ msg) × All (IsPiece kind literal) pre

-- Cutting a text at a literal that is not empty gives pieces that spell the text, each of which is
-- the literal under the given kind, or unrefined and without an occurrence of the literal.
pub append_split_special_literal-IsCut :
    (msg : Bytes) (l : ℕ) (literal : Bytes) (kind : PreTokenKind)
    → IsCut kind (l ∷ literal) msg (append_split_special_literal [] msg (l ∷ literal) kind)
append_split_special_literal-IsCut msg l literal kind = (
  pre_text-append_split_special_literal [] msg (l ∷ literal) kind,
  append_split_special_literal-IsPiece msg l literal kind,
)
