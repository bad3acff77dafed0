-- ===== src/Tokenizer/Lossless.antt =====
-- What the tokenizer keeps of a text.
use tipping.Base.{
  ℕ, zero, suc, ◌+◌, ◌<◌, ◌≡◌, refl, sym, ◌∙◌, ◌⊎◌, Bool, false, List, [], ◌∷◌, ◌++◌, Option, none,
  some, length, drop, Bytes, arith, Option-cases, inl, inr, append_assoc, append-nil, All,
  All-append_left, All-append_right, AreBytes, take-take-drop, take-mid-drop, bytes_eq,
}
use tipping.Utf8.{Unicode}
use tipping.Strings.{index}
use tipping.Symbols.{SymbolSet, new_symbol_table}
use tipping.Token.{Token, PreToken, PreTokenKind, unrefined, pre_white, pre_black}
use tipping.Split.Lossless.{text_of, text_of-append, append_split_token_scalar-lossless}
use tipping.Simd.Equiv.{append_split_token-same_everywhere}
use tipping.Tokenizer.Steps.{
  pre_text, pre_text-append, pre_text-append_raw, pre_laws, next_literal, literal_loop-stop,
  literal_loop-cut, take_match, regex_loop-stop, regex_loop-take,
}
use tipping.Tokenizer.{
  Regexp, SpecialMatcher, raw, literal_loop, append_split_special_literal, RegexState, regex_loop,
  append_split_special_regex, append_split_special, refine, refine_one, refine_all, Tokenizer,
  pre_tokenize, append_pre_token, append_pre_tokens, tokenize, new_tokenizer,
  compile_special_matchers,
}

pub pre_text-raw :
    (s : Bytes) (dst : List PreToken) → pre_text (dst ++ raw s ∷ []) ≡ pre_text dst ++ s
pre_text-raw s dst = simp (pre_text-append, append-nil)

pre_text-literal_loop :
    (fuel : ℕ) (rest literal : Bytes) (kind : PreTokenKind) (dst : List PreToken)
    → pre_text (literal_loop fuel rest literal kind dst) ≡ pre_text dst ++ rest
pre_text-literal_loop zero rest literal kind dst =
    unfold literal_loop in pre_text-append_raw rest dst
pre_text-literal_loop (suc fuel) rest literal kind dst = elim (Option-cases (index rest literal)) [
  | inl e ↦ rw (literal_loop-stop fuel rest literal kind dst e) (pre_text-append_raw rest dst)
  | inr (i, e) ↦
      rw
        (
          literal_loop-cut fuel rest literal kind dst e,
          pre_text-literal_loop fuel (drop (i + length literal) rest) literal kind
              (next_literal i rest literal kind dst),
        )
        (simp pre_laws (rw (take-take-drop i (length literal) rest)))
]

pub pre_text-append_split_special_literal :
    (dst : List PreToken) (msg literal : Bytes) (kind : PreTokenKind)
    → pre_text (append_split_special_literal dst msg literal kind) ≡ pre_text dst ++ msg
unfolding append_split_special_literal
pre_text-append_split_special_literal dst msg [] kind = pre_text-raw msg dst
pre_text-append_split_special_literal dst msg (l ∷ literal) kind =
    ground
      (arith, pre_text-raw msg dst, pre_text-literal_loop (length msg) msg (l ∷ literal) kind dst)

-- A regular expression whose matches are never empty.
abbrev pub NeverEmpty : Regexp → Type 0
NeverEmpty re = (s : Bytes) (i j : ℕ) → re.find s ≡ some (i, j) → i < j

pre_text-regex_loop :
    (fuel : ℕ) (re : Regexp) (kind : PreTokenKind) (st : RegexState)
    → NeverEmpty re
    → pre_text (regex_loop fuel re kind st).dst ++ (regex_loop fuel re kind st).rest
      ≡ pre_text st.dst ++ st.rest
pre_text-regex_loop zero re kind st h = unfold regex_loop in refl
pre_text-regex_loop (suc fuel) re kind st h = elim (Option-cases (re.find st.rest)) [
  | inl e ↦ rw (regex_loop-stop fuel re kind st e)
  | inr ((i, j), e) ↦
      let lt : i < j = h st.rest i j e in
      rw (regex_loop-take fuel re kind st e (ground arith)) (
        pre_text-regex_loop fuel re kind (take_match kind st i j) h
        ∙ simp pre_laws (rw (take-mid-drop i j st.rest (omega arith))))
]

-- A matcher that has a literal, or an expression whose matches are never empty.
abbrev pub KeepsText : SpecialMatcher → Type 0
KeepsText m = (bytes_eq m.literal [] ≡ false) ⊎ ((re : Regexp) → m.re ≡ some re → NeverEmpty re)

pre_text-append_split_special_regex :
    (dst : List PreToken) (msg : Bytes) (re : Option Regexp) (kind : PreTokenKind)
    → ((r : Regexp) → re ≡ some r → NeverEmpty r)
    → pre_text (append_split_special_regex dst msg re kind) ≡ pre_text dst ++ msg
unfolding append_split_special_regex
pre_text-append_split_special_regex dst msg none kind h = pre_text-raw msg dst
pre_text-append_split_special_regex dst msg (some re) kind h =
    let start : RegexState = record { dst = dst; rest = msg; matched = false } in
    let final = regex_loop (suc (length msg)) re kind start in
    ground (
      arith,
      pre_text-raw msg dst,
      pre_text-append_raw final.rest final.dst,
      pre_text-regex_loop (suc (length msg)) re kind start (h re refl),
    )

pre_text-append_split_special :
    (dst : List PreToken) (msg : Bytes) (m : SpecialMatcher) (kind : PreTokenKind)
    → KeepsText m
    → pre_text (append_split_special dst msg m kind) ≡ pre_text dst ++ msg
unfolding append_split_special
pre_text-append_split_special dst msg m kind (inl h) =
    rw h (pre_text-append_split_special_literal dst msg m.literal kind)
pre_text-append_split_special dst msg m kind (inr h) = ground (
  arith,
  pre_text-append_split_special_literal dst msg m.literal kind,
  pre_text-append_split_special_regex dst msg m.re kind h,
)

pre_text-refine_one :
    (m : SpecialMatcher) (kind : PreTokenKind) (next : List PreToken) (k : PreTokenKind) (s : Bytes)
    → KeepsText m
    → pre_text (refine_one m kind next k s) ≡ pre_text next ++ s
unfolding refine_one
pre_text-refine_one m kind next unrefined s h = pre_text-append_split_special next s m kind h
pre_text-refine_one m kind next pre_white s h = simp pre_laws
pre_text-refine_one m kind next pre_black s h = simp pre_laws

pre_text-refine :
    (m : SpecialMatcher) (kind : PreTokenKind) (next pre : List PreToken)
    → KeepsText m
    → pre_text (refine m kind next pre) ≡ pre_text next ++ pre_text pre
unfolding refine
pre_text-refine m kind next [] h = sym (append-nil _)
pre_text-refine m kind next (p ∷ ps) h =
    pre_text-refine m kind (refine_one m kind next p.kind p.slice) ps h
    ∙ rw (pre_text-refine_one m kind next p.kind p.slice h)
        (append_assoc (pre_text next) p.slice (pre_text ps))

pre_text-refine_all :
    (ms : List SpecialMatcher) (kind : PreTokenKind) (pre : List PreToken)
    → All KeepsText ms
    → pre_text (refine_all ms kind pre) ≡ pre_text pre
unfolding refine_all
pre_text-refine_all [] kind pre h = refl
pre_text-refine_all (m ∷ ms) kind pre (hm, h) =
    pre_text-refine_all ms kind (refine m kind [] pre) h ∙ pre_text-refine m kind [] pre hm

-- Cutting at the special patterns keeps the text, where no pattern has an empty match.
pub pre_text-pre_tokenize :
    (t : Tokenizer) (msg : Bytes)
    → All KeepsText t.special_whites
    → All KeepsText t.special_blacks
    → pre_text (pre_tokenize t msg) ≡ msg
unfolding pre_tokenize
pre_text-pre_tokenize t msg hw hb =
    pre_text-refine_all t.special_blacks pre_black _ hb
    ∙ pre_text-refine_all t.special_whites pre_white _ hw
    ∙ append-nil msg

module _ (simd : Bool) (u : Unicode) (symbols : SymbolSet) where
  text_of-append_pre_token :
      (out : List Token) (k : PreTokenKind) (s : Bytes)
      → AreBytes s
      → text_of (append_pre_token simd u (new_symbol_table symbols) out k s) ≡ text_of out ++ s
  unfolding append_pre_token
  text_of-append_pre_token out unrefined s h =
      rw (append_split_token-same_everywhere simd u symbols out s h)
        (append_split_token_scalar-lossless u (new_symbol_table symbols) out s)
  text_of-append_pre_token out pre_white s h = simp (text_of-append, append-nil)
  text_of-append_pre_token out pre_black s h = simp (text_of-append, append-nil)

  text_of-append_pre_tokens :
      (out : List Token) (pre : List PreToken)
      → AreBytes (pre_text pre)
      → text_of (append_pre_tokens simd u (new_symbol_table symbols) out pre)
        ≡ text_of out ++ pre_text pre
  unfolding append_pre_tokens
  text_of-append_pre_tokens out [] h = sym (append-nil _)
  text_of-append_pre_tokens out (p ∷ ps) h =
      text_of-append_pre_tokens
        (append_pre_token simd u (new_symbol_table symbols) out p.kind p.slice) ps
        (All-append_right _ p.slice (pre_text ps) h)
      ∙ rw (text_of-append_pre_token out p.kind p.slice (All-append_left _ p.slice (pre_text ps) h))
          (append_assoc (text_of out) p.slice (pre_text ps))

-- The slices of the tokens of a text of bytes, one after the other, are the text, with or without
-- the vector kernel, if no special pattern that is a regular expression has an empty match.
pub text_of-tokenize :
    (simd : Bool) (u : Unicode) (special_whites special_blacks : List Regexp) (symbols : SymbolSet)
    (msg : Bytes)
    → All KeepsText (compile_special_matchers special_whites)
    → All KeepsText (compile_special_matchers special_blacks)
    → AreBytes msg
    → text_of (tokenize simd u (new_tokenizer special_whites special_blacks symbols) msg) ≡ msg
unfolding tokenize new_tokenizer
text_of-tokenize simd u special_whites special_blacks symbols msg hw hb h =
    let t = new_tokenizer special_whites special_blacks symbols in
    let e : pre_text (pre_tokenize t msg) ≡ msg = pre_text-pre_tokenize t msg hw hb in
    text_of-append_pre_tokens simd u symbols [] (pre_tokenize t msg) (rw e h) ∙ e
