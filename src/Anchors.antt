-- ===== src/Anchors.antt =====
-- The anchors of a row: the map of graph.go, and the key that parser.go makes of it.
pub mod Key
pub mod Holds
use tipping.Base.{
  ℕ, zero, suc, Bool, true, false, ◌&&◌, List, [], ◌∷◌, ◌++◌, Bytes, ltb, ◌==◌, if◌then◌else◌,
  bytes_eq,
}
use tipping.Token.{
  Token, TokenKind, alphabetic, numeric, symbolic, whitespace, impure, special_white, special_black,
}
use tipping.Groups.{KeyedRow, bytes_ltb}

-- `iota`
abbrev pub kind_number : TokenKind → ℕ
kind_number alphabetic = 0
kind_number numeric = 1
kind_number symbolic = 2
kind_number whitespace = 3
kind_number impure = 4
kind_number special_white = 5
kind_number special_black = 6

-- `tokenKeyFor(a) == tokenKeyFor(b)`
abbrev pub same_key : Token → Token → Bool
same_key a b = kind_number a.kind == kind_number b.kind && bytes_eq a.slice b.slice

-- A Go map from the keys of tokens to tokens, each at its own key: the list of its values, in the
-- order of an iteration.
abbrev pub Anchors : Type 0
Anchors = List Token

-- `delete(anchors, tokenKeyFor(tok))`
unfoldable pub delete_anchor : Token → Anchors → Anchors
delete_anchor tok [] = []
delete_anchor tok (a ∷ anchors) =
    let rest = delete_anchor tok anchors in if same_key a tok then rest else a ∷ rest

-- `anchors[tokenKeyFor(tok)] = tok`
unfoldable pub put_anchor : Token → Anchors → Anchors
unfolding delete_anchor
put_anchor tok anchors = tok ∷ delete_anchor tok anchors

-- The last loop of `anchorTokens`.
abbrev pub add_special : Token → TokenKind → Anchors → Anchors
add_special tok special_white anchors = put_anchor tok anchors
add_special tok special_black anchors = delete_anchor tok anchors
add_special tok alphabetic anchors = anchors
add_special tok numeric anchors = anchors
add_special tok symbolic anchors = anchors
add_special tok whitespace anchors = anchors
add_special tok impure anchors = anchors

unfoldable pub add_specials : List Token → Anchors → Anchors
add_specials [] anchors = anchors
add_specials (tok ∷ tokens) anchors = add_specials tokens (add_special tok tok.kind anchors)

-- The loop over `largest`: the tokens of its nodes.
unfoldable pub put_anchors : List Token → Anchors → Anchors
put_anchors [] anchors = anchors
put_anchors (tok ∷ tokens) anchors = put_anchors tokens (put_anchor tok anchors)

-- The comparison of `slices.SortFunc` in `canonicalAnchorKey`, less than zero.
abbrev pub key_before : Token → Token → Bool
key_before a b =
    if kind_number a.kind == kind_number b.kind
    then bytes_ltb a.slice b.slice
    else ltb (kind_number a.kind) (kind_number b.kind)

abbrev pub insert_token : Token → List Token → List Token
insert_token a [] = a ∷ []
insert_token a (x ∷ tokens) =
    let rest = insert_token a tokens in if key_before a x then a ∷ x ∷ tokens else x ∷ rest

abbrev pub sort_tokens : List Token → List Token
sort_tokens [] = []
sort_tokens (a ∷ tokens) = insert_token a (sort_tokens tokens)

-- The bytes of the sorted keys: the kind, `\x1f`, the slice, `\x00`.
unfoldable pub key_bytes : List Token → Bytes
key_bytes [] = []
key_bytes (a ∷ tokens) = kind_number a.kind ∷ 0x1F ∷ (a.slice ++ 0 ∷ key_bytes tokens)

unfoldable pub canonical_anchor_key : Anchors → KeyedRow
unfolding key_bytes
canonical_anchor_key anchors = (key_bytes (sort_tokens anchors), sort_tokens anchors)
