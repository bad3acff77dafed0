-- ===== src/Token.antt =====
-- The tokens of tokenizer.go.
use tipping.Base.{Bytes}

pub data TokenKind : Type 0 where
  alphabetic numeric symbolic whitespace impure special_white special_black : TokenKind

pub record Token : Type 0 where
  pub kind : TokenKind
  pub slice : Bytes

pub data PreTokenKind : Type 0 where
  unrefined pre_white pre_black : PreTokenKind

pub record PreToken : Type 0 where
  pub kind : PreTokenKind
  pub slice : Bytes
