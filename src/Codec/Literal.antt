-- ===== src/Codec/Literal.antt =====
-- Messages that are stored as their own templates, and hold the text of the placeholder.
use tipping.Base.{
  ℕ, ◌+◌, ◌≤◌, ◌≡◌, ◌≢◌, refl, false, List, [], ◌∷◌, Option, none, some, length, Bytes, drop, arith,
  ◌==◌,
}
use tipping.Strings.{index, split, split_on}
use tipping.Strings.Index.{index-le}
use tipping.Strings.Join.{split_on-cut, split_on-ne-nil}
use tipping.Template.{placeholder}
use tipping.Codec.{
  ok, CodecEntry, CorpusCodec, encode, decode, decode_template, Builder, ensure_template_id,
  store_entry, add_message, add_messages, number_templates, build_codec, inconsistent_literal,
}
use tipping.Dict.{lookup, lookup_self}
use tipping.Codec.Tables.{numbered-IdsSound, ensure_template_id-IsEnsured}

length-of-ne-nil : (xs : List Bytes) → xs ≢ [] → 1 ≤ length xs
length-of-ne-nil [] h = absurd (h refl)
length-of-ne-nil (x ∷ xs) h = omega arith

-- A text with a placeholder in it splits into two parts or more.
length-split : (s : Bytes) {i : ℕ} → index s placeholder ≡ some i → 2 ≤ length (split s placeholder)
unfolding split
length-split [] {i} e = absurd (omega (arith, index-le [] placeholder i e))
length-split (b ∷ s) {i} e = rw (split_on-cut (length s) (b ∷ s) placeholder e) (
    omega (
      arith,
      length-of-ne-nil (split_on (length s) (drop (i + 3) (b ∷ s)) placeholder)
          (split_on-ne-nil (length s) (drop (i + 3) (b ∷ s)) placeholder),
    ))

decode_template-placeholder :
    (msg : Bytes) {i : ℕ} → index msg placeholder ≡ some i → decode_template msg [] ≡ none
unfolding decode_template
decode_template-placeholder msg e = ground (arith, length-split msg e)

-- A message with the placeholder text and without a mask of its length is put into the codec and
-- encoded, and its encoding decodes to nothing.
pub build_codec-placeholder :
    (templates : List Bytes) (match_id : Bytes → Option ℕ) (msg mask : Bytes) (i : ℕ)
    → length mask ≢ length msg
    → index msg placeholder ≡ some i
    → (c : CorpusCodec) × (r : ℕ × List Bytes) × (build_codec templates match_id
          (msg ∷ [])
          (mask ∷ [])
        ≡ ok c)
      × (encode c msg ≡ some r)
      × (decode c r.0 r.1 ≡ none)
unfolding build_codec add_messages add_message
build_codec-placeholder templates match_id msg mask i other held =
    let ids = number_templates templates 0 [] in
    let start : Builder = record { templates = templates; template_ids = ids; entries = [] } in
    let r = ensure_template_id msg start in
    let made = ensure_template_id-IsEnsured msg start (numbered-IdsSound templates) in
    let entry : CodecEntry = record { template_id = r.0; args = [] } in
    let b : Builder = record r.1 { entries = (msg, entry) ∷ r.1.entries } in
    let free : lookup msg r.1.entries ≡ none = rw made.same_entries (unfold lookup in refl) in
    let stores : store_entry inconsistent_literal msg entry r.1 ≡ ok b =
      unfold store_entry in rw (free, store_entry) in
    let differs : (length mask == length msg) ≡ false = ground arith in
    (
      record { templates = b.templates; entries = b.entries },
      (r.0, []),
      rw differs (rw stores),
      unfold encode in rw (lookup_self msg entry r.1.entries, encode),
      unfold decode in
          rw (made.sound msg r.0 made.found, decode) (decode_template-placeholder msg held),
    )
