-- ===== src/Tokenizer/Steps.antt =====
-- One round of the loops over a special pattern, and the text that pre-tokens spell.
use tipping.Base.{
  ℕ, zero, suc, ◌+◌, ◌-◌, ◌≤◌, ◌<◌, ◌≡◌, refl, sym, ap, ◌∙◌, Bool, true, false, List, [], ◌∷◌, ◌++◌,
  Option, none, some, leb, length, take, drop, Bytes, arith, append_assoc, append-nil,
}
use tipping.Strings.{index}
use tipping.Token.{PreToken, PreTokenKind}
use tipping.Tokenizer.{Regexp, append_raw, literal_loop, RegexState, regex_loop, skip_size}

-- The text that pre-tokens spell.
abbrev pub pre_text : List PreToken → Bytes
pre_text [] = []
pre_text (p ∷ ps) = p.slice ++ pre_text ps

pub pre_text-append : (xs ys : List PreToken) → pre_text (xs ++ ys) ≡ pre_text xs ++ pre_text ys
pre_text-append [] ys = refl
pre_text-append (x ∷ xs) ys = simp (pre_text-append xs ys, append_assoc)

pub pre_text-append_raw :
    (s : Bytes) (dst : List PreToken) → pre_text (append_raw s dst) ≡ pre_text dst ++ s
pre_text-append_raw [] dst = sym (append-nil _)
pre_text-append_raw (b ∷ s) dst = simp (pre_text-append, append-nil)

pub ruleset pre_laws = (pre_text-append, pre_text-append_raw, append-nil, append_assoc)

abbrev pub next_literal : ℕ → Bytes → Bytes → PreTokenKind → List PreToken → List PreToken
next_literal i rest literal kind dst =
    append_raw (take i rest) dst
    ++ record { kind = kind; slice = take (length literal) (drop i rest) } ∷ []

module _ (fuel : ℕ) (rest literal : Bytes) (kind : PreTokenKind) (dst : List PreToken) where
  pub literal_loop-stop :
      index rest literal ≡ none
      → literal_loop (suc fuel) rest literal kind dst ≡ append_raw rest dst
  unfolding literal_loop
  literal_loop-stop e = rw (e, literal_loop)

  pub literal_loop-cut :
      {i : ℕ}
      → index rest literal ≡ some i
      → literal_loop (suc fuel) rest literal kind dst
        ≡ literal_loop fuel
            (drop (i + length literal) rest)
            literal
            kind
            (next_literal i rest literal kind dst)
  unfolding literal_loop
  literal_loop-cut e = rw (e, literal_loop)

-- The state after a match of `start` to `end`.
abbrev pub take_match : PreTokenKind → RegexState → ℕ → ℕ → RegexState
take_match kind st start end = record {
  dst =
      append_raw (take start st.rest) st.dst
      ++ record { kind = kind; slice = take (end - start) (drop start st.rest) } ∷ [];
  rest = drop end st.rest;
  matched = true;
}

-- The state after an empty match at `start`.
abbrev pub skip_match : RegexState → ℕ → RegexState
skip_match st start = record st { rest = drop (start + skip_size (drop start st.rest)) st.rest }

module _ (fuel : ℕ) (re : Regexp) (kind : PreTokenKind) (st : RegexState) where
  pub regex_loop-stop : re.find st.rest ≡ none → regex_loop (suc fuel) re kind st ≡ st
  unfolding regex_loop
  regex_loop-stop e = rw (e, regex_loop)

  pub regex_loop-take :
      {start end : ℕ}
      → re.find st.rest ≡ some (start, end)
      → leb end start ≡ false
      → regex_loop (suc fuel) re kind st ≡ regex_loop fuel re kind (take_match kind st start end)
  unfolding regex_loop
  regex_loop-take e h = rw (e, regex_loop) (rw h)

  pub regex_loop-end :
      {start end : ℕ}
      → re.find st.rest ≡ some (start, end)
      → leb end start ≡ true
      → leb (length st.rest) start ≡ true
      → regex_loop (suc fuel) re kind st ≡ st
  unfolding regex_loop
  regex_loop-end e h k = rw (e, regex_loop) (rw h (rw k))

  pub regex_loop-skip :
      {start end : ℕ}
      → re.find st.rest ≡ some (start, end)
      → leb end start ≡ true
      → leb (length st.rest) start ≡ false
      → regex_loop (suc fuel) re kind st ≡ regex_loop fuel re kind (skip_match st start)
  unfolding regex_loop
  regex_loop-skip e h k = rw (e, regex_loop) (rw h (rw k))
