-- ===== src/Codec/RoundTrip.antt =====
-- `NewCorpusCodec`, `Encode` and `Decode` (corpus_codec.go) together, on the messages of a corpus.
use tipping.Base.{ℕ, ◌≡◌, refl, List, [], ◌∷◌, Option, some, Bytes, map, All}
use tipping.Codec.{
  ok, CodecEntry, CorpusCodec, encode, decode, Builder, add_messages, number_templates, build_codec,
}
use tipping.Dict.{Dict, lookup}
use tipping.Codec.Build.{
  plan_template, IsClean, decode-plan, IsBuilder, NoFallback, add_message-IsAdded,
}
use tipping.Codec.Tables.{numbered-IdsSound}

-- A message is encoded, and what it is encoded to is decoded to it.
abbrev pub RoundTrips : CorpusCodec → Bytes → Type 0
RoundTrips c msg = (r : ℕ × List Bytes) × (encode c msg ≡ some r) × (decode c r.0 r.1 ≡ some msg)

module _ (mask_of : Bytes → Bytes) where
  -- Every message of the list has an entry.
  abbrev Stored : Builder → List Bytes → Type 0
  Stored b = All (λ msg. (e : CodecEntry) × (lookup msg b.entries ≡ some e))

  record IsBuilt (ids : Dict ℕ) (messages : List Bytes) (b b' : Builder) : Type 0 where
    builder : IsBuilder mask_of ids b'
    stored : Stored b' messages
    keeps :
        (k : Bytes) (e : CodecEntry) → lookup k b.entries ≡ some e → lookup k b'.entries ≡ some e

  add_messages-IsBuilt :
      (ids : Dict ℕ) (match_id : Bytes → Option ℕ) (messages : List Bytes) (b : Builder)
      → IsBuilder mask_of ids b
      → All (IsClean mask_of) messages
      → All (NoFallback mask_of ids match_id) messages
      → (b' : Builder) × (add_messages match_id messages (map mask_of messages) b ≡ ok b')
        × IsBuilt ids messages b b'
  unfolding add_messages
  add_messages-IsBuilt ids match_id [] b h _ _ =
      (b, refl, record { builder = h; stored = tt; keeps = λ k e f. f })
  add_messages-IsBuilt ids match_id (msg ∷ messages) b h (clean, hc) (quiet, hq) =
      let (b1, e1, a) = add_message-IsAdded mask_of ids match_id msg b h clean quiet in
      let (b2, e2, r) = add_messages-IsBuilt ids match_id messages b1 a.builder hc hq in
      (
        b2,
        rw e1 e2,
        record {
          builder = r.builder;
          stored = ((a.stored.0, r.keeps msg a.stored.0 a.stored.1), r.stored);
          keeps = λ k e f. r.keeps k e (a.keeps k e f);
        },
      )

  RoundTrips-entry :
      (ids : Dict ℕ) (b : Builder) (msg : Bytes) (e : CodecEntry)
      → IsBuilder mask_of ids b
      → IsClean mask_of msg
      → lookup msg b.entries ≡ some e
      → RoundTrips (record { templates = b.templates; entries = b.entries }) msg
  unfolding encode decode
  RoundTrips-entry ids b msg e h clean f =
      let (same_args, found) = h.exact msg e f in
      (
        (e.template_id, e.args),
        rw (f, encode),
        rw (h.sound (plan_template mask_of msg) e.template_id found, decode)
            (rw same_args (decode-plan mask_of msg clean)),
      )

  RoundTrips-built :
      (ids : Dict ℕ) (b : Builder) (messages : List Bytes)
      → IsBuilder mask_of ids b
      → All (IsClean mask_of) messages
      → Stored b messages
      → All (RoundTrips (record { templates = b.templates; entries = b.entries })) messages
  RoundTrips-built ids b [] h _ _ = tt
  RoundTrips-built ids b (msg ∷ messages) h (clean, hc) ((e, f), hs) =
      (RoundTrips-entry ids b msg e h clean f, RoundTrips-built ids b messages h hc hs)

-- The codec of a corpus is built without an error and every message of the corpus is encoded and
-- decoded to itself, when masks depend on the line alone and are digits where they have the line's
-- length, no message holds the placeholder text, and the matcher finds nothing for a message whose
-- own template its table lacks.
pub build_codec-RoundTrips :
    (templates : List Bytes) (match_id : Bytes → Option ℕ) (messages : List Bytes)
    (mask_of : Bytes → Bytes)
    → All (IsClean mask_of) messages
    → All (NoFallback mask_of (number_templates templates 0 []) match_id) messages
    → (c : CorpusCodec) × (build_codec templates match_id messages (map mask_of messages) ≡ ok c)
      × All (RoundTrips c) messages
unfolding build_codec
build_codec-RoundTrips templates match_id [] mask_of clean quiet =
    (record { templates = []; entries = [] }, refl, tt)
build_codec-RoundTrips templates match_id (msg ∷ messages) mask_of clean quiet =
    let ids = number_templates templates 0 [] in
    let start : Builder = record { templates = templates; template_ids = ids; entries = [] } in
    let h : IsBuilder mask_of ids start = record {
      sound = numbered-IdsSound templates;
      older = λ k e. e;
      exact = λ k e f. absurd (unfold lookup in cc);
    } in
    let (b, e, built) =
      add_messages-IsBuilt mask_of ids match_id (msg ∷ messages) start h clean quiet in
    (
      record { templates = b.templates; entries = b.entries },
      rw e,
      RoundTrips-built mask_of ids b (msg ∷ messages) built.builder clean built.stored,
    )
