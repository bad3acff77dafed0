-- ===== src/Codec.antt =====
-- corpus_codec.go: an exact codec for the messages of a corpus. The parser's masks, the matcher's
-- template table and its `MatchID` are arguments of `build_codec`.
pub mod Layout
pub mod Placeholder
pub mod Tables
pub mod Build
pub mod Derived
pub mod RoundTrip
pub mod Literal
use tipping.Base.{
  ℕ, zero, suc, ◌+◌, ◌-◌, Bool, true, false, ◌&&◌, not, List, [], ◌∷◌, ◌++◌, Option, none, some,
  ◌==◌, if◌then◌else◌, length, take, drop, get_elem?, Bytes, bytes_eq,
}
use tipping.Strings.{split}
use tipping.Dict.{Dict, lookup}
use tipping.Template.{placeholder}

pub data CodecError : Type 0 where
  mask_length invalid_mask inconsistent_literal inconsistent_encoding : CodecError

pub data Result {ℓ} (A : Type ℓ) : Type ℓ where
  ok : A → Result A
  err : CodecError → Result A

infixl 5 ◌>>=◌
abbrev pub ◌>>=◌ {ℓ κ} : {A : Type ℓ} {B : Type κ} → Result A → (A → Result B) → Result B
ok a >>= f = f a
err e >>= f = err e

-- How many bytes of the mask are '1' from here on.
abbrev pub ones : Bytes → ℕ
ones [] = 0
ones (m ∷ mask) = if m == b'1' then suc (ones mask) else 0

-- The loop of `templateAndArgsFromMask`, over the rests of the message and the mask.
unfoldable pub mask_args_loop : ℕ → Bytes → Bytes → Bytes → List Bytes → Result (Bytes × List Bytes)
mask_args_loop (suc fuel) (b ∷ msg) (m ∷ mask) out args =
    let plain = mask_args_loop fuel msg mask (out ++ b ∷ []) args in
    let j = suc (ones mask) in
    let run =
      mask_args_loop fuel (drop j (b ∷ msg)) (drop j (m ∷ mask)) (out ++ placeholder)
        (args ++ take j (b ∷ msg) ∷ []) in
    if m == b'0' then plain else if m == b'1' then run else err invalid_mask
mask_args_loop fuel msg mask out args = ok (out, args)

-- Each round reads a byte or more, so the length of the message is enough fuel.
unfoldable pub template_and_args_from_mask : Bytes → Bytes → Result (Bytes × List Bytes)
unfolding mask_args_loop
template_and_args_from_mask msg mask =
    if length msg == length mask
    then mask_args_loop (length msg) msg mask [] []
    else err mask_length

pub record CodecEntry : Type 0 where
  pub template_id : ℕ
  pub args : List Bytes

pub record CorpusCodec : Type 0 where
  pub templates : List Bytes
  pub entries : Dict CodecEntry

unfoldable pub encode : CorpusCodec → Bytes → Option (ℕ × List Bytes)
encode c message = elim (lookup message c.entries) [
  | none ↦ none
  | some entry ↦ some (entry.template_id, entry.args)
]

unfoldable pub encode_id : CorpusCodec → Bytes → Option ℕ
encode_id c message = elim (lookup message c.entries) [
  | none ↦ none
  | some entry ↦ some entry.template_id
]

-- The last loop of `Decode`: each part, and the argument with its index if there is one.
unfoldable pub interleave : List Bytes → List Bytes → Bytes
interleave [] args = []
interleave (p ∷ parts) [] = p ++ interleave parts []
interleave (p ∷ parts) (a ∷ args) = p ++ (a ++ interleave parts args)

unfoldable pub decode_template : Bytes → List Bytes → Option Bytes
decode_template template args =
    let parts = split template placeholder in
    if length args == length parts - 1 then some (interleave parts args) else none

-- A negative id is outside this model's numbers; one past the table is `none`.
unfoldable pub decode : CorpusCodec → ℕ → List Bytes → Option Bytes
decode c template_id args = elim (get_elem? c.templates template_id) [
  | none ↦ none
  | some template ↦ decode_template template args
]

unfoldable pub equal_string_slices : List Bytes → List Bytes → Bool
equal_string_slices [] [] = true
equal_string_slices [] (b ∷ bs) = false
equal_string_slices (a ∷ as') [] = false
equal_string_slices (a ∷ as') (b ∷ bs) = bytes_eq a b && equal_string_slices as' bs

-- The variables of the main loop of `NewCorpusCodec`.
pub record Builder : Type 0 where
  pub templates : List Bytes
  pub template_ids : Dict ℕ
  pub entries : Dict CodecEntry

-- `ensureTemplateID`: the id, and the tables with the template in them.
unfoldable pub ensure_template_id : Bytes → Builder → ℕ × Builder
ensure_template_id template b = elim (lookup template b.template_ids) [
  | some id ↦ (id, b)
  | none ↦ (
    length b.templates,
    record b {
      templates = b.templates ++ template ∷ [];
      template_ids = (template, length b.templates) ∷ b.template_ids;
    },
  )
]

-- The entry is stored, or compared with the one that a duplicate has left.
unfoldable pub store_entry : CodecError → Bytes → CodecEntry → Builder → Result Builder
store_entry e msg entry b = elim (lookup msg b.entries) [
  | none ↦ ok (record b { entries = (msg, entry) ∷ b.entries })
  | some prev ↦
      if prev.template_id == entry.template_id && equal_string_slices prev.args entry.args
      then ok b
      else err e
]

-- `id, ok := templateIDs[template]`, and the fallback to `matcher.MatchID`.
unfoldable pub resolve_template : (Bytes → Option ℕ) → Bytes → Bytes → Builder → ℕ × Builder
resolve_template match_id msg template b = elim (lookup template b.template_ids) [
  | some id ↦ (id, b)
  | none ↦ elim (match_id msg) [ some id ↦ (id, b) | none ↦ ensure_template_id template b ]
]

-- The body of the main loop. A message with a mask of another length is its own template.
unfoldable pub add_message : (Bytes → Option ℕ) → Bytes → Bytes → Builder → Result Builder
add_message match_id msg mask b =
    if length mask == length msg
    then (do
      (template, args) ← template_and_args_from_mask msg mask
      let r = resolve_template match_id msg template b
      store_entry inconsistent_encoding msg (record { template_id = r.0; args = args }) r.1)
    else (let r = ensure_template_id msg b in
        store_entry inconsistent_literal msg (record { template_id = r.0; args = [] }) r.1)

unfoldable pub add_messages :
    (Bytes → Option ℕ) → List Bytes → List Bytes → Builder → Result Builder
add_messages match_id (msg ∷ messages) (mask ∷ masks) b = do
  b' ← add_message match_id msg mask b
  add_messages match_id messages masks b'
add_messages match_id messages masks b = ok b

-- `for id, template := range templates { templateIDs[template] = id }`
unfoldable pub number_templates : List Bytes → ℕ → Dict ℕ → Dict ℕ
number_templates [] id ids = ids
number_templates (t ∷ ts) id ids = number_templates ts (id + 1) ((t, id) ∷ ids)

unfoldable pub build_codec :
    List Bytes → (Bytes → Option ℕ) → List Bytes → List Bytes → Result CorpusCodec
build_codec templates match_id [] masks = ok (record { templates = []; entries = [] })
build_codec templates match_id (msg ∷ messages) masks = do
  b ← add_messages match_id (msg ∷ messages) masks (record {
    templates = templates;
    template_ids = number_templates templates 0 [];
    entries = [];
  })
  ok (record { templates = b.templates; entries = b.entries })
