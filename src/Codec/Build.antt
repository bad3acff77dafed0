-- ===== src/Codec/Build.antt =====
-- One round of the main loop of `NewCorpusCodec` (corpus_codec.go): the tables and the entry that it
-- leaves.
use tipping.Base.{
  ℕ, ◌≡◌, refl, sym, ap, ◌∙◌, subst, true, List, [], ◌∷◌, Option, none, some, length, Bytes, arith,
  Option-cases, Bool-cases, inl, inr, bytes_eq, bytes_eq_refl, bytes_eq→eq, ◌==◌, if◌then◌else◌,
}
use tipping.Strings.Lacks.{Lacks}
use tipping.Template.{placeholder}
use tipping.Codec.{
  ok, CodecEntry, CodecError, decode_template, Builder, ensure_template_id, store_entry,
  resolve_template, add_message, inconsistent_encoding, inconsistent_literal, equal_string_slices,
}
use tipping.Dict.{Dict, lookup, lookup_self, lookup_other, lookup_new}
use tipping.Codec.Layout.{
  IsMask, layout_of, layout_template, layout_text, arguments, template_and_args_from_mask-layout,
  decode_template-layout, layout_text-layout, decode_template-literal,
}
use tipping.Codec.Tables.{IdsSound, IsEnsured, ensure_template_id-IsEnsured}

equal_string_slices_refl : (xs : List Bytes) → equal_string_slices xs xs ≡ true
unfolding equal_string_slices
equal_string_slices_refl [] = refl
equal_string_slices_refl (x ∷ xs) = ground (arith, bytes_eq_refl x, equal_string_slices_refl xs)

-- The mask of each line is a function of the line, as the parser's masks are.
module _ (mask_of : Bytes → Bytes) where
  -- The template and the arguments that a message is stored under.
  abbrev pub plan_template : Bytes → Bytes
  plan_template msg =
      if length (mask_of msg) == length msg
      then layout_template (layout_of msg (mask_of msg))
      else msg

  abbrev pub plan_args : Bytes → List Bytes
  plan_args msg =
      if length (mask_of msg) == length msg
      then arguments (layout_of msg (mask_of msg)).pairs
      else []

  -- The message holds no placeholder text, and its mask, where it is used, is one of digits.
  abbrev pub IsClean : Bytes → Type 0
  IsClean msg = Lacks placeholder msg × (length (mask_of msg) ≡ length msg → IsMask (mask_of msg))

  pub decode-plan :
      (msg : Bytes) → IsClean msg → decode_template (plan_template msg) (plan_args msg) ≡ some msg
  decode-plan msg (h, m) = elim (Bool-cases (length (mask_of msg) == length msg)) [
    | inl e ↦
        let l = layout_of msg (mask_of msg) in
        let same_text : layout_text l ≡ msg =
          layout_text-layout (length msg) msg (mask_of msg) (omega arith) (ground arith) in
        rw e (decode_template-layout l (rw same_text h) ∙ ap some same_text)
    | inr e ↦ rw e (decode_template-literal msg h)
  ]

  pub record IsBuilder (ids : Dict ℕ) (b : Builder) : Type 0 where
    pub sound : IdsSound b.template_ids b.templates
    -- A template without an id has none in the matcher's table.
    pub older : (k : Bytes) → lookup k b.template_ids ≡ none → lookup k ids ≡ none
    pub exact :
        (msg : Bytes) (e : CodecEntry)
        → lookup msg b.entries ≡ some e
        → (e.args ≡ plan_args msg)
          × (lookup (plan_template msg) b.template_ids ≡ some e.template_id)

  -- What adding a message leaves.
  pub record IsAdded (ids : Dict ℕ) (msg : Bytes) (b b' : Builder) : Type 0 where
    pub builder : IsBuilder ids b'
    pub stored : (e : CodecEntry) × (lookup msg b'.entries ≡ some e)
    pub keeps :
        (k : Bytes) (e : CodecEntry) → lookup k b.entries ≡ some e → lookup k b'.entries ≡ some e

  ensured-older :
      (ids : Dict ℕ) (t : Bytes) (b : Builder) (r : ℕ × Builder)
      → IsBuilder ids b
      → IsEnsured t b r
      → (k : Bytes) → lookup k r.1.template_ids ≡ none
      → lookup k ids ≡ none
  ensured-older ids t b r h e k f = elim (Option-cases (lookup k b.template_ids)) [
    | inl g ↦ h.older k g
    | inr (i, g) ↦ absurd (cc (e.keeps k i g))
  ]

  -- The builder after `ensureTemplateID`, before the entry is stored.
  ensured-IsBuilder :
      (ids : Dict ℕ) (t : Bytes) (b : Builder) (r : ℕ × Builder)
      → IsBuilder ids b
      → IsEnsured t b r
      → IsBuilder ids r.1
  ensured-IsBuilder ids t b r h e = record {
    sound = e.sound;
    older = ensured-older ids t b r h e;
    exact = λ msg entry f.
        let (p, q) = h.exact msg entry (rw (← e.same_entries) f) in
        (p, e.keeps (plan_template msg) entry.template_id q);
  }

  new-IsAdded :
      (ids : Dict ℕ) (msg : Bytes) (id : ℕ) (b : Builder)
      → IsBuilder ids b
      → lookup (plan_template msg) b.template_ids ≡ some id
      → lookup msg b.entries ≡ none
      → IsAdded ids msg b (record b {
        entries = (msg, record { template_id = id; args = plan_args msg }) ∷ b.entries;
      })
  new-IsAdded ids msg id b h found free =
      let entry : CodecEntry = record { template_id = id; args = plan_args msg } in
      record {
        builder = record {
          sound = h.sound;
          older = h.older;
          exact = λ k e f. elim (Bool-cases (bytes_eq msg k)) [
            | inl s ↦
                let same_key = bytes_eq→eq msg k s in
                let g : lookup k ((msg, entry) ∷ b.entries) ≡ some entry =
                  subst (λ x. lookup x ((msg, entry) ∷ b.entries) ≡ some entry) same_key
                    (lookup_self msg entry b.entries) in
                let same_entry : entry ≡ e = cc in rw (← same_entry, ← same_key) (refl, found)
            | inr s ↦ h.exact k e (sym (lookup_other msg k entry b.entries s) ∙ f)
          ];
        };
        stored = (entry, lookup_self msg entry b.entries);
        keeps = λ k e f. lookup_new msg k entry b.entries free f;
      }

  store_entry-IsAdded :
      (ids : Dict ℕ) (er : CodecError) (msg : Bytes) (b : Builder) (r : ℕ × Builder)
      → IsBuilder ids b
      → IsEnsured (plan_template msg) b r
      → (b' : Builder) × (store_entry er msg
            (record { template_id = r.0; args = plan_args msg })
            r.1
          ≡ ok b')
        × IsAdded ids msg b b'
  unfolding store_entry
  store_entry-IsAdded ids er msg b r h e = elim (Option-cases (lookup msg r.1.entries)) [
    | inl free ↦
        let a = new-IsAdded ids msg r.0 r.1 (ensured-IsBuilder ids _ b r h e) e.found free in
        (
          record r.1 {
            entries = (msg, record { template_id = r.0; args = plan_args msg }) ∷ r.1.entries;
          },
          rw (free, store_entry),
          record {
            builder = a.builder;
            stored = a.stored;
            keeps = λ k x f. a.keeps k x (rw e.same_entries f);
          },
        )
    | inr (prev, old) ↦
        let (same_args, same_id) = (ensured-IsBuilder ids _ b r h e).exact msg prev old in
        (
          r.1,
          rw (old, store_entry) (ground (arith, equal_string_slices_refl (plan_args msg), e.found)),
          record {
            builder = ensured-IsBuilder ids _ b r h e;
            stored = (prev, old);
            keeps = λ k x f. rw e.same_entries f;
          },
        )
  ]

  -- The matcher is not asked: where a template is not in its table, it matches nothing.
  abbrev pub NoFallback : Dict ℕ → (Bytes → Option ℕ) → Bytes → Type 0
  NoFallback ids match_id msg = lookup (plan_template msg) ids ≡ none → match_id msg ≡ none

  ensure_template_id-old :
      (t : Bytes) (b : Builder) {id : ℕ}
      → lookup t b.template_ids ≡ some id
      → ensure_template_id t b ≡ (id, b)
  unfolding ensure_template_id
  ensure_template_id-old t b e = rw (e, ensure_template_id)

  resolve_template-ensure :
      (match_id : Bytes → Option ℕ) (msg t : Bytes) (b : Builder)
      → (lookup t b.template_ids ≡ none → match_id msg ≡ none)
      → resolve_template match_id msg t b ≡ ensure_template_id t b
  unfolding resolve_template
  resolve_template-ensure match_id msg t b h = elim (Option-cases (lookup t b.template_ids)) [
    | inl e ↦ let g = h e in rw (e, resolve_template) (rw g)
    | inr (id, e) ↦ rw (ensure_template_id-old t b e) (rw (e, resolve_template))
  ]

  abbrev entry_error : Bytes → CodecError
  entry_error msg =
      if length (mask_of msg) == length msg then inconsistent_encoding else inconsistent_literal

  -- Adding a message ensures its template and stores its entry.
  add_message-plan :
      (match_id : Bytes → Option ℕ) (msg : Bytes) (b : Builder)
      → (length (mask_of msg) ≡ length msg → IsMask (mask_of msg))
      → (lookup (plan_template msg) b.template_ids ≡ none → match_id msg ≡ none)
      → add_message match_id msg (mask_of msg) b
        ≡ store_entry
            (entry_error msg)
            msg
            (record {
              template_id = (ensure_template_id (plan_template msg) b).0;
              args = plan_args msg;
            })
            (ensure_template_id (plan_template msg) b).1
  unfolding add_message
  add_message-plan match_id msg b digits quiet =
      elim (Bool-cases (length (mask_of msg) == length msg)) [
        | inl e ↦
            let same_size : length (mask_of msg) ≡ length msg = ground arith in
            let t = layout_template (layout_of msg (mask_of msg)) in
            let quiet' : lookup t b.template_ids ≡ none → match_id msg ≡ none = rw e at quiet in
            rw e (
              rw
                (template_and_args_from_mask-layout msg (mask_of msg) (sym same_size)
                  (digits same_size))
                (rw (resolve_template-ensure match_id msg t b quiet')))
        | inr e ↦ rw e
      ]

  pub add_message-IsAdded :
      (ids : Dict ℕ) (match_id : Bytes → Option ℕ) (msg : Bytes) (b : Builder)
      → IsBuilder ids b
      → IsClean msg
      → NoFallback ids match_id msg
      → (b' : Builder) × (add_message match_id msg (mask_of msg) b ≡ ok b') × IsAdded ids msg b b'
  add_message-IsAdded ids match_id msg b h (lacks, digits) quiet =
      let t = plan_template msg in
      let (b', stored, added) =
        store_entry-IsAdded ids (entry_error msg) msg b (ensure_template_id t b) h
          (ensure_template_id-IsEnsured t b h.sound) in
      (b', add_message-plan match_id msg b digits (λ e. quiet (h.older t e)) ∙ stored, added)
