-- ===== src/Matcher/Decodes.antt =====
-- `compiledTemplate.match` (matcher.go) and the codec's `Decode` (corpus_codec.go) together.
use tipping.Base.{
  ℕ, suc, ◌+◌, ◌-◌, ◌≤◌, ◌<◌, ◌≡◌, ◌≢◌, refl, sym, ap, ◌∙◌, true, List, [], ◌∷◌, ◌++◌, none, some,
  ◌==◌, if◌then◌else◌, length, drop, Bytes, bytes_eq, bytes_eq→eq, arith, length-append, append-nil,
  All,
}
use tipping.Strings.{has_prefix, split, join}
use tipping.Strings.Index.{has_prefix→eq}
use tipping.Strings.Join.{join-split, split_on-ne-nil}
use tipping.Template.{placeholder}
use tipping.Codec.{decode_template, interleave}
use tipping.Matcher.{
  count_bytes, compile_template, match_loop, match_parts, match_internal, match_template,
}
use tipping.Matcher.Match.{IsMatch, match_loop-Found}

abbrev pub IsArgument : Bytes → Type 0
IsArgument a = a ≢ []

length-IsMatch :
    (rest : Bytes) (parts args : List Bytes) → IsMatch rest parts args → length args ≡ length parts
length-IsMatch rest [] [] m = refl
length-IsMatch rest [] (a ∷ args) m = absurd m
length-IsMatch rest (p ∷ parts) [] m = absurd m
length-IsMatch rest (p ∷ parts) (a ∷ args) (n, rest', e, m) =
    ap suc (length-IsMatch rest' parts args m)

interleave-IsMatch :
    (p rest : Bytes) (parts args : List Bytes)
    → IsMatch rest parts args
    → interleave (p ∷ parts) args ≡ p ++ rest
unfolding interleave
interleave-IsMatch p rest [] [] m = ap (λ r. p ++ r) (sym m)
interleave-IsMatch p rest [] (a ∷ args) m = absurd m
interleave-IsMatch p rest (q ∷ parts) [] m = absurd m
interleave-IsMatch p rest (q ∷ parts) (a ∷ args) (n, rest', e, m) =
    ap (λ r. p ++ (a ++ r)) (interleave-IsMatch q rest' parts args m) ∙ ap (λ r. p ++ r) (sym e)

arguments-IsMatch :
    (rest : Bytes) (parts args : List Bytes) → IsMatch rest parts args → All IsArgument args
arguments-IsMatch rest [] [] m = tt
arguments-IsMatch rest [] (a ∷ args) m = absurd m
arguments-IsMatch rest (p ∷ parts) [] m = absurd m
arguments-IsMatch rest (p ∷ parts) (a ∷ args) (n, rest', e, m) =
    (n, arguments-IsMatch rest' parts args m)

ne-nil-length : (a : Bytes) → a ≢ [] → 0 < length a
ne-nil-length [] h = absurd (h refl)
ne-nil-length (b ∷ a) h = omega arith

count_bytes-IsMatch :
    (rest : Bytes) (parts args : List Bytes)
    → IsMatch rest parts args
    → count_bytes parts + length parts ≤ length rest
unfolding count_bytes
count_bytes-IsMatch rest [] [] m = omega arith
count_bytes-IsMatch rest [] (a ∷ args) m = absurd m
count_bytes-IsMatch rest (p ∷ parts) [] m = absurd m
count_bytes-IsMatch rest (p ∷ parts) (a ∷ args) (n, rest', e, m) =
    rw e
      (omega (arith, length-append {0}, count_bytes-IsMatch rest' parts args m, ne-nil-length a n))

total :
    (p rest : Bytes) (parts args : List Bytes) (msg : Bytes)
    → msg ≡ p ++ rest
    → IsMatch rest parts args
    → count_bytes (p ∷ parts) + length (p ∷ parts) - 1 ≤ length msg
unfolding count_bytes
total p rest parts args msg e m =
    rw e (omega (arith, length-append {0}, count_bytes-IsMatch rest parts args m))

-- What the program relies on in a match.
abbrev Sound : Bytes → List Bytes → Bytes → List Bytes → Type 0
Sound tmpl parts msg args =
    (interleave parts args ≡ msg)
    × (length args ≡ length parts - 1)
    × All IsArgument args
    × (count_bytes parts + length parts - 1 ≤ length msg)

match_parts-Sound :
    (tmpl msg : Bytes) (parts args : List Bytes)
    → match_parts true msg parts ≡ some args
    → Sound tmpl parts msg args
unfolding match_parts
match_parts-Sound tmpl msg [] args h = absurd (cc)
match_parts-Sound tmpl msg (p ∷ parts) args h =
    let (hp, hl) = found in
    let (new, e, m) = match_loop-Found true msg (length p) parts [] args hl in
    let same_length = length-IsMatch _ parts new m in
    let text = has_prefix→eq msg p hp in
    rw e (
      interleave-IsMatch p (drop (length p) msg) parts new m ∙ sym text,
      omega (arith, same_length),
      arguments-IsMatch _ parts new m,
      total p (drop (length p) msg) parts new msg text m,
    )
  where
    found : (has_prefix msg p ≡ true) × (match_loop true msg (length p) parts [] ≡ some args)
    found = ground arith

split-ne-nil : (tmpl : Bytes) → split tmpl placeholder ≢ []
unfolding split
split-ne-nil tmpl = split_on-ne-nil _ tmpl placeholder

whole-Sound :
    (tmpl msg : Bytes) (parts args : List Bytes)
    → parts ≢ []
    → join parts placeholder ≡ tmpl
    → (if length parts - 1 == 0
        then (if bytes_eq msg tmpl then some [] else none)
        else match_parts true msg parts)
      ≡ some args
    → Sound tmpl parts msg args
whole-Sound tmpl msg [] args n j h = absurd (n refl)
whole-Sound tmpl msg (p ∷ []) args n j h =
    let (same, e) = exact in
    let text : p ≡ msg = unfold join in (j ∙ sym (bytes_eq→eq msg tmpl same)) in
    rw (e, text) (unfold interleave in append-nil msg, refl, tt, unfold count_bytes in omega arith)
  where
    exact : (bytes_eq msg tmpl ≡ true) × (args ≡ [])
    exact = ground arith
whole-Sound tmpl msg (p ∷ q ∷ parts) args n j h =
    match_parts-Sound tmpl msg (p ∷ q ∷ parts) args (ground arith)

decode-Sound :
    (tmpl msg : Bytes) (args : List Bytes)
    → Sound tmpl (split tmpl placeholder) msg args
    → decode_template tmpl args ≡ some msg
unfolding decode_template
decode-Sound tmpl msg args (text, len, some_args, long) = ground arith

-- When match captures arguments from a message, decoding the template with them gives the message,
-- no argument is empty, and the message has minMsgLen bytes or more.
pub match_template-decodes :
    (id : ℕ) (tmpl msg : Bytes) (args : List Bytes)
    → match_template (compile_template id tmpl) msg ≡ some args
    → (decode_template tmpl args ≡ some msg)
      × All IsArgument args
      × ((compile_template id tmpl).min_msg_len ≤ length msg)
unfolding match_template match_internal compile_template
match_template-decodes id tmpl msg args h =
    let s =
      whole-Sound tmpl msg (split tmpl placeholder) args (split-ne-nil tmpl)
        (join-split tmpl placeholder) h in
    (decode-Sound tmpl msg args s, s.2, s.3)
