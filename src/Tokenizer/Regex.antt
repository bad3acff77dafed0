-- ===== src/Tokenizer/Regex.antt =====
-- The loop of `appendSplitSpecialRegex` (tokenizer.go) over the matches of a regular expression.
use tipping.Base.{
  ap, ◌∙◌, ◌&&◌, Bool, Option, none, ℕ, zero, suc, ◌+◌, ◌-◌, ◌≤◌, ◌<◌, ◌≡◌, refl, true, false, [],
  ◌∷◌, ◌++◌, some, leb, length, take, drop, Bytes, arith, Option-cases, Bool-cases, inl, inr,
  length-append, length-drop, length-take,
}
use tipping.Token.{PreTokenKind}
use tipping.Tokenizer.{Regexp, RegexState, regex_loop, append_split_special_regex, skip_size}
use tipping.Tokenizer.Steps.{
  pre_text, pre_text-append_raw, pre_laws, take_match, skip_match, regex_loop-stop, regex_loop-take,
  regex_loop-end, regex_loop-skip,
}

-- What `FindStringIndex` is documented to return: a range of the text that it is given.
pub record IsRegexp (re : Regexp) : Type 0 where
  pub ordered : (s : Bytes) (i j : ℕ) → re.find s ≡ some (i, j) → i ≤ j
  pub within : (s : Bytes) (i j : ℕ) → re.find s ≡ some (i, j) → j ≤ length s

-- Where the loop leaves: `idx == nil`, or an empty match at the end of the text.
abbrev pub stops_at : ℕ → Option (ℕ × ℕ) → Bool
stops_at size none = true
stops_at size (some (start, end)) = leb end start && leb size start

abbrev pub stops : Regexp → Bytes → Bool
stops re rest = stops_at (length rest) (re.find rest)

skip_size-pos : (s : Bytes) → 1 ≤ skip_size s
skip_size-pos s = ground arith

module _ (re : Regexp) (kind : PreTokenKind) (ok : IsRegexp re) where
  -- The bytes that are in the output or still to be read.
  abbrev held : RegexState → ℕ
  held st = length (pre_text st.dst) + length st.rest

  held-take :
      (st : RegexState) (i j : ℕ)
      → i < j
      → j ≤ length st.rest
      → held (take_match kind st i j) ≡ held st
  held-take st i j h k =
      let e : pre_text (take_match kind st i j).dst
          ≡ pre_text st.dst ++ (take i st.rest ++ take (j - i) (drop i st.rest)) =
        simp pre_laws in
      rw e (omega (arith, length-append {0}, length-take {0}, length-drop {0}))

  held-skip : (st : RegexState) (i : ℕ) → held (skip_match st i) ≤ held st
  held-skip st i = omega (arith, length-drop (i + skip_size (drop i st.rest)) st.rest)

  shorter :
      (st : RegexState) (i j n : ℕ)
      → re.find st.rest ≡ some (i, j)
      → leb j i ≡ false
      → length st.rest < suc n
      → length (drop j st.rest) < n
  shorter st i j n e e' h =
      let lt : i < j = ground arith in omega (arith, length-drop j st.rest, ok.within st.rest i j e)

  skipped :
      (st : RegexState) (i n : ℕ)
      → leb (length st.rest) i ≡ false
      → length st.rest < suc n
      → length (drop (i + skip_size (drop i st.rest)) st.rest) < n
  skipped st i n more h =
      let lt : i < length st.rest = ground arith in
      omega (
        arith,
        length-drop (i + skip_size (drop i st.rest)) st.rest,
        skip_size-pos (drop i st.rest),
      )

  regex_loop-stops :
      (f : ℕ) (st : RegexState)
      → length st.rest < f
      → stops re (regex_loop f re kind st).rest ≡ true
  regex_loop-stops zero st h = absurd (omega arith)
  regex_loop-stops (suc f) st h = elim (Option-cases (re.find st.rest)) [
    | inl e ↦ rw (regex_loop-stop f re kind st e) (ap (stops_at (length st.rest)) e)
    | inr ((i, j), e) ↦ elim (Bool-cases (leb j i)) [
      | inr e' ↦
          rw (regex_loop-take f re kind st e e')
            (regex_loop-stops f (take_match kind st i j) (shorter st i j f e e' h))
      | inl e' ↦ elim (Bool-cases (leb (length st.rest) i)) [
        | inl last ↦
            rw (regex_loop-end f re kind st e e' last)
              (ap (stops_at (length st.rest)) e ∙ ground arith)
        | inr more ↦
            rw (regex_loop-skip f re kind st e e' more)
              (regex_loop-stops f (skip_match st i) (skipped st i f more h))
      ]
    ]
  ]

  regex_loop-enough :
      (f g : ℕ) (st : RegexState)
      → length st.rest < f
      → length st.rest < g
      → regex_loop f re kind st ≡ regex_loop g re kind st
  regex_loop-enough zero g st h k = absurd (omega arith)
  regex_loop-enough (suc f) zero st h k = absurd (omega arith)
  regex_loop-enough (suc f) (suc g) st h k = elim (Option-cases (re.find st.rest)) [
    | inl e ↦ rw (regex_loop-stop f re kind st e, regex_loop-stop g re kind st e)
    | inr ((i, j), e) ↦ elim (Bool-cases (leb j i)) [
      | inr e' ↦
          rw (regex_loop-take f re kind st e e', regex_loop-take g re kind st e e')
            (regex_loop-enough f g (take_match kind st i j) (shorter st i j f e e' h)
              (shorter st i j g e e' k))
      | inl e' ↦ elim (Bool-cases (leb (length st.rest) i)) [
        | inl last ↦
            rw (regex_loop-end f re kind st e e' last, regex_loop-end g re kind st e e' last)
        | inr more ↦
            rw (regex_loop-skip f re kind st e e' more, regex_loop-skip g re kind st e e' more)
              (regex_loop-enough f g (skip_match st i) (skipped st i f more h)
                (skipped st i g more k))
      ]
    ]
  ]

  held-regex_loop : (f : ℕ) (st : RegexState) → held (regex_loop f re kind st) ≤ held st
  held-regex_loop zero st = unfold regex_loop in omega arith
  held-regex_loop (suc f) st = elim (Option-cases (re.find st.rest)) [
    | inl e ↦ rw (regex_loop-stop f re kind st e) (omega arith)
    | inr ((i, j), e) ↦ elim (Bool-cases (leb j i)) [
      | inr e' ↦
          let lt : i < j = ground arith in
          rw (regex_loop-take f re kind st e e') (
            omega (
              arith,
              held-regex_loop f (take_match kind st i j),
              held-take st i j lt (ok.within st.rest i j e),
            ))
      | inl e' ↦ elim (Bool-cases (leb (length st.rest) i)) [
        | inl last ↦ rw (regex_loop-end f re kind st e e' last) (omega arith)
        | inr more ↦
            rw (regex_loop-skip f re kind st e e' more)
              (omega (arith, held-regex_loop f (skip_match st i), held-skip st i))
      ]
    ]
  ]

  matched-regex_loop :
      (f : ℕ) (st : RegexState) → st.matched ≡ true → (regex_loop f re kind st).matched ≡ true
  matched-regex_loop zero st h = unfold regex_loop in h
  matched-regex_loop (suc f) st h = elim (Option-cases (re.find st.rest)) [
    | inl e ↦ rw (regex_loop-stop f re kind st e) h
    | inr ((i, j), e) ↦ elim (Bool-cases (leb j i)) [
      | inr e' ↦
          rw (regex_loop-take f re kind st e e')
            (matched-regex_loop f (take_match kind st i j) refl)
      | inl e' ↦ elim (Bool-cases (leb (length st.rest) i)) [
        | inl last ↦ rw (regex_loop-end f re kind st e e' last) h
        | inr more ↦
            rw (regex_loop-skip f re kind st e e' more) (matched-regex_loop f (skip_match st i) h)
      ]
    ]
  ]

  -- After an empty match at `start`, and then a match with bytes in it.
  held-after_skip :
      (f : ℕ) (st : RegexState) (start i j : ℕ)
      → re.find st.rest ≡ some (start, start)
      → start < length st.rest
      → re.find (skip_match st start).rest ≡ some (i, j)
      → i < j
      → (held (regex_loop (suc (suc f)) re kind st) < held st)
        × ((regex_loop (suc (suc f)) re kind st).matched ≡ true)
  held-after_skip f st start i j e lt e' lt' =
      let next = take_match kind (skip_match st start) i j in
      rw
        (
          regex_loop-skip (suc f) re kind st e (ground arith) (ground arith),
          regex_loop-take f re kind (skip_match st start) e' (ground arith),
        )
        (
          omega (
            arith,
            held-regex_loop f next,
            held-take (skip_match st start) i j lt' (ok.within _ i j e'),
            length-drop (start + skip_size (drop start st.rest)) st.rest,
            skip_size-pos (drop start st.rest),
          ),
          matched-regex_loop f next refl,
        )

-- For an expression whose matches are ranges of the text, the loop over the matches, with more
-- fuel than there are unread bytes, has come to a break (no match in the rest, or an empty match
-- at the end of the rest), and more fuel changes nothing.
pub regex_loop-ends :
    (re : Regexp) (kind : PreTokenKind) (fuel more : ℕ) (st : RegexState)
    → IsRegexp re
    → length st.rest < fuel
    → (stops re (regex_loop fuel re kind st).rest ≡ true)
      × (regex_loop (fuel + more) re kind st ≡ regex_loop fuel re kind st)
regex_loop-ends re kind fuel more st ok h = (
  regex_loop-stops re kind ok fuel st h,
  regex_loop-enough re kind ok (fuel + more) fuel st (omega arith) h,
)

-- After an empty first match inside the text and then a match that is not empty, the pre-tokens
-- hold fewer bytes than the text.
pub append_split_special_regex-loses :
    (re : Regexp) (kind : PreTokenKind) (msg : Bytes) (start i j : ℕ)
    → IsRegexp re
    → re.find msg ≡ some (start, start)
    → start < length msg
    → re.find (drop (start + skip_size (drop start msg)) msg) ≡ some (i, j)
    → i < j
    → length (pre_text (append_split_special_regex [] msg (some re) kind)) < length msg
unfolding append_split_special_regex
append_split_special_regex-loses re kind [] start i j ok e lt e' lt' = absurd (omega arith)
append_split_special_regex-loses re kind (b ∷ s) start i j ok e lt e' lt' =
    let begin : RegexState = record { dst = []; rest = b ∷ s; matched = false } in
    let final = regex_loop (suc (suc (length s))) re kind begin in
    let (less, hit) = held-after_skip re kind ok (length s) begin start i j e lt e' lt' in
    rw hit (
      rw (pre_text-append_raw final.rest final.dst)
        (omega (arith, length-append (pre_text final.dst) final.rest)))
