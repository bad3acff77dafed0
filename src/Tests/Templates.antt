-- ===== src/Tests/Templates.antt =====
-- Templates, masks, matches and the codec on small corpora.
use tipping.Base.{
  ℕ, ◌≤◌, ◌≡◌, refl, true, ◌&&◌, List, [], ◌∷◌, none, some, leb, if◌then◌else◌, length, map, Bytes,
  codes, arith, All, inl, inr,
}
use tipping.Strings.{index, has_prefix, has_suffix, split}
use tipping.Token.{Token, alphabetic, numeric, whitespace}
use tipping.Filter.{StaticFilter}
use tipping.Split.Lossless.{text_of}
use tipping.Template.{
  CommonSet, CommonScratch, contains, shared_slices, template_loop, row_mask, row_template,
}
use tipping.Template.Rows.{all_occur}
use tipping.Template.Scratch.{IsScratch}
use tipping.Template.Shared.{shared_slices-intersection}
use tipping.Template.Masks.{length-row_mask}
use tipping.Codec.{
  interleave, CorpusCodec, build_codec, encode, decode, ok, template_and_args_from_mask,
  decode_template,
}
use tipping.Codec.Layout.{decode_template-mask}
use tipping.Codec.Build.{IsClean}
use tipping.Codec.RoundTrip.{RoundTrips, build_codec-RoundTrips}
use tipping.Codec.Literal.{build_codec-placeholder}
use tipping.Codec.Derived.{template_and_args_from_mask-row_mask}
use tipping.Matcher.{
  compile_template, match_all_ids, match_internal, match_parts, match_loop, match_template, matches,
}
use tipping.Matcher.Decodes.{IsArgument, match_template-decodes}
use tipping.Matcher.Leading.{match_template-leading}
use tipping.Matcher.Batch.{match_all_ids-map}
use tipping.Matcher.Capture.{is_some, matches-match_template}
use tipping.Tests.Samples.{Lacks-index-none}

abbrev word : Bytes → Token
word s = record { kind = alphabetic; slice = s }

-- "go 7" and "go 9", with ids for "go", " ", "7" and "9".
abbrev row_seven : List Token
row_seven =
    word (codes "go")
    ∷ record { kind = whitespace; slice = codes " " }
    ∷ record { kind = numeric; slice = codes "7" }
    ∷ []

abbrev row_nine : List Token
row_nine =
    word (codes "go")
    ∷ record { kind = whitespace; slice = codes " " }
    ∷ record { kind = numeric; slice = codes "9" }
    ∷ []

abbrev rows : List (List Token)
rows = row_seven ∷ row_nine ∷ []

abbrev row_ids : List (List ℕ)
row_ids = (0 ∷ 1 ∷ 2 ∷ []) ∷ (0 ∷ 1 ∷ 3 ∷ []) ∷ []

abbrev all_in : StaticFilter
all_in = record { alphabetic_in = true; numeric_in = true; impure_in = true }

-- A scratch near the end of its epochs, so that the marks are cleared.
abbrev late : CommonScratch
late = record { mark = 7 ∷ 4294967294 ∷ []; spare = 0 ∷ 2 ∷ []; base = 4294967294 }

late-IsScratch : IsScratch 4 late
late-IsScratch = record { below = λ id h. ground arith; small = omega arith }

shared_slices-intersection_example :
    ((id : ℕ)
      → contains (shared_slices rows row_ids all_in late 4).0 id ≡ all_occur all_in rows row_ids id)
    × IsScratch 4 (shared_slices rows row_ids all_in late 4).1
shared_slices-intersection_example =
    shared_slices-intersection rows row_ids all_in late 4 (omega arith) refl (omega arith)
      (
        (omega arith, (omega arith, (omega arith, tt))),
        ((omega arith, (omega arith, (omega arith, tt))), tt),
      )
      late-IsScratch

abbrev common : CommonSet
common = record { mark = 5 ∷ 5 ∷ 4 ∷ 3 ∷ []; final = 5 }

length-row_mask_example :
    length (row_mask common row_seven (0 ∷ 1 ∷ 2 ∷ [])) ≡ length (text_of row_seven)
length-row_mask_example = length-row_mask common row_seven (0 ∷ 1 ∷ 2 ∷ []) refl

template_and_args_from_mask-row_mask_example :
    (args : List Bytes) × (template_and_args_from_mask
        (text_of row_seven)
        (row_mask common row_seven (0 ∷ 1 ∷ 2 ∷ []))
      ≡ ok (row_template common row_seven (0 ∷ 1 ∷ 2 ∷ []), args))
template_and_args_from_mask-row_mask_example =
    template_and_args_from_mask-row_mask common row_seven (0 ∷ 1 ∷ 2 ∷ []) refl
      (λ e. cc, (λ e. cc, (λ e. cc, tt)))

row_template_run : row_template common row_seven (0 ∷ 1 ∷ 2 ∷ []) ≡ codes "go <*>"
unfolding row_template template_loop contains
row_template_run = refl

-- The matcher.
greeting_run :
    match_template (compile_template 0 (codes "<*>b<*>d")) (codes "abcd")
    ≡ some (codes "a" ∷ codes "c" ∷ [])
unfolding match_template match_internal match_parts match_loop compile_template split index
    has_prefix has_suffix
greeting_run = refl

match_template-decodes_example :
    (decode_template (codes "<*>b<*>d") (codes "a" ∷ codes "c" ∷ []) ≡ some (codes "abcd"))
    × All IsArgument (codes "a" ∷ codes "c" ∷ [])
    × ((compile_template 0 (codes "<*>b<*>d")).min_msg_len ≤ length (codes "abcd"))
match_template-decodes_example =
    match_template-decodes 0 (codes "<*>b<*>d") (codes "abcd") (codes "a" ∷ codes "c" ∷ [])
      greeting_run

matches-match_template_example :
    matches (compile_template 0 (codes "<*>b<*>d")) (codes "abcd")
    ≡ is_some (match_template (compile_template 0 (codes "<*>b<*>d")) (codes "abcd"))
matches-match_template_example =
    matches-match_template (compile_template 0 (codes "<*>b<*>d")) (codes "abcd")

-- The codec. Digits are the parameters, and a line in capitals has no mask.
abbrev mask_of : Bytes → Bytes
mask_of [] = []
mask_of (b ∷ s) =
    if leb b'A' b && leb b b'Z'
    then []
    else (if leb b'0' b && leb b b'9' then b'1' else b'0') ∷ mask_of s

abbrev corpus : List Bytes
corpus = codes "go 7" ∷ codes "STOP" ∷ codes "go 7" ∷ []

corpus-IsClean : All (IsClean mask_of) corpus
corpus-IsClean = (seven, (stop, (seven, tt)))
  where
    stop : IsClean mask_of (codes "STOP")
    stop = (Lacks-index-none _ (unfold index has_prefix in refl), λ e. absurd (omega arith))

    seven : IsClean mask_of (codes "go 7")
    seven = (
      Lacks-index-none _ (unfold index has_prefix in refl),
      λ e. (inl refl, (inl refl, (inl refl, (inr refl, tt)))),
    )

build_codec-RoundTrips_example :
    (c : CorpusCodec) × (build_codec (codes "go <*>" ∷ []) (λ msg. none) corpus (map mask_of corpus)
      ≡ ok c)
    × All (RoundTrips c) corpus
build_codec-RoundTrips_example =
    build_codec-RoundTrips (codes "go <*>" ∷ []) (λ msg. none) corpus mask_of corpus-IsClean
      (λ e. refl, (λ e. refl, (λ e. refl, tt)))

decode_template-mask_example :
    (t : Bytes × List Bytes) × (template_and_args_from_mask (codes "go 7") (codes "0001") ≡ ok t)
    × (decode_template t.0 t.1 ≡ some (codes "go 7"))
decode_template-mask_example =
    decode_template-mask (codes "go 7") (codes "0001") refl
      (inl refl, (inl refl, (inl refl, (inr refl, tt))))
      (Lacks-index-none _ (unfold index has_prefix in refl))

build_codec-placeholder_example :
    (c : CorpusCodec) × (r : ℕ × List Bytes) × (build_codec []
        (λ msg. none)
        (codes "a<*>" ∷ [])
        ([] ∷ [])
      ≡ ok c)
    × (encode c (codes "a<*>") ≡ some r)
    × (decode c r.0 r.1 ≡ none)
build_codec-placeholder_example =
    build_codec-placeholder [] (λ msg. none) (codes "a<*>") [] 1 (λ e. omega arith)
      (unfold index has_prefix in refl)

match_template-leading_example :
    match_template (compile_template 0 (codes "<*>a<*>")) (codes "aab") ≡ none
match_template-leading_example =
    match_template-leading 0 (codes "<*>a<*>") (codes "aab") b'a' [] [] [] (codes "b")
      (unfold split index has_prefix in refl)
      (unfold decode_template interleave split index has_prefix in refl)

match_all_ids-map_example :
    match_all_ids (λ msg. some (length msg)) corpus ≡ map (λ msg. some (length msg)) corpus
match_all_ids-map_example = match_all_ids-map (λ msg. some (length msg)) corpus
