-- ===== src/Intern/Ids.antt =====
-- What the ids of `internRows` (parser.go) say of the token texts.
use tipping.Base.{
  refl, ap, subst, ◌%◌, ◌≤◌, ℕ, ◌<◌, ◌≡◌, sym, ◌∙◌, List, [], ◌∷◌, none, some, length, Bytes, arith,
  Option-cases, Bool-cases, inl, inr, bytes_eq, bytes_eq→eq,
}
use tipping.Dict.{Dict, lookup, lookup_self, lookup_new}
use tipping.Token.{Token}
use tipping.Template.{u32_mod}
use tipping.Intern.{intern_slice, intern_row, intern_rows}

-- No two texts have one id, and all ids are below the number of texts.
pub record IsInterner (d : Dict ℕ) : Type 0 where
  pub below : (s : Bytes) (id : ℕ) → lookup s d ≡ some id → id < length d
  pub injective : (s t : Bytes) (id : ℕ) → lookup s d ≡ some id → lookup t d ≡ some id → s ≡ t

-- Every text of `d` keeps its id.
abbrev pub Keeps : Dict ℕ → Dict ℕ → Type 0
Keeps d d' = (s : Bytes) (id : ℕ) → lookup s d ≡ some id → lookup s d' ≡ some id

-- The tokens of a row have the ids of their texts.
abbrev pub HasIds : Dict ℕ → List Token → List ℕ → Type 0
HasIds d [] [] = Unit {0}
HasIds d (tok ∷ toks) (id ∷ ids) = (lookup tok.slice d ≡ some id) × HasIds d toks ids
HasIds d toks ids = ⊥

abbrev pub AllHaveIds : Dict ℕ → List (List Token) → List (List ℕ) → Type 0
AllHaveIds d [] [] = Unit {0}
AllHaveIds d (toks ∷ rows) (ids ∷ rids) = HasIds d toks ids × AllHaveIds d rows rids
AllHaveIds d rows rids = ⊥

HasIds-Keeps :
    (d d' : Dict ℕ) (toks : List Token) (ids : List ℕ)
    → Keeps d d'
    → HasIds d toks ids
    → HasIds d' toks ids
HasIds-Keeps d d' [] [] k h = tt
HasIds-Keeps d d' [] (id ∷ ids) k h = absurd h
HasIds-Keeps d d' (tok ∷ toks) [] k h = absurd h
HasIds-Keeps d d' (tok ∷ toks) (id ∷ ids) k (e, h) =
    (k tok.slice id e, HasIds-Keeps d d' toks ids k h)

-- The id of a text, and the ids that were there, whatever their number.
intern_slice-HasId :
    (slice : Bytes) (d : Dict ℕ)
    → (lookup slice (intern_slice slice d).1 ≡ some (intern_slice slice d).0)
      × Keeps d (intern_slice slice d).1
unfolding intern_slice
intern_slice-HasId slice d = elim (Option-cases (lookup slice d)) [
  | inl e ↦
      let id = length d % u32_mod in
      rw (e, intern_slice) (lookup_self slice id d, (λ s i f. lookup_new slice s id d e f))
  | inr (id, e) ↦ rw (e, intern_slice) (e, (λ s i f. f))
]

intern_row-HasIds :
    (toks : List Token) (d : Dict ℕ)
    → HasIds (intern_row toks d).1 toks (intern_row toks d).0 × Keeps d (intern_row toks d).1
unfolding intern_row
intern_row-HasIds [] d = (tt, (λ s id f. f))
intern_row-HasIds (tok ∷ toks) d =
    let (found, keep) = intern_slice-HasId tok.slice d in
    let (ids, keep') = intern_row-HasIds toks (intern_slice tok.slice d).1 in
    ((keep' tok.slice _ found, ids), (λ s id f. keep' s id (keep s id f)))

-- Interning gives each token the id of its text and keeps the ids that were given.
pub intern_rows-HasIds :
    (tokenized : List (List Token)) (d : Dict ℕ)
    → AllHaveIds (intern_rows tokenized d).1 tokenized (intern_rows tokenized d).0
      × Keeps d (intern_rows tokenized d).1
unfolding intern_rows
intern_rows-HasIds [] d = (tt, (λ s id f. f))
intern_rows-HasIds (toks ∷ rows) d =
    let (ids, keep) = intern_row-HasIds toks d in
    let d1 = (intern_row toks d).1 in
    let (rids, keep') = intern_rows-HasIds rows d1 in
    ((HasIds-Keeps d1 _ toks _ keep' ids, rids), (λ s id f. keep' s id (keep s id f)))

-- No text is forgotten.
length-intern_slice : (slice : Bytes) (d : Dict ℕ) → length d ≤ length (intern_slice slice d).1
unfolding intern_slice
length-intern_slice slice d = ground arith

length-intern_row : (toks : List Token) (d : Dict ℕ) → length d ≤ length (intern_row toks d).1
unfolding intern_row
length-intern_row [] d = omega arith
length-intern_row (tok ∷ toks) d =
    omega
      (arith, length-intern_slice tok.slice d, length-intern_row toks (intern_slice tok.slice d).1)

length-intern_rows :
    (tokenized : List (List Token)) (d : Dict ℕ) → length d ≤ length (intern_rows tokenized d).1
unfolding intern_rows
length-intern_rows [] d = omega arith
length-intern_rows (toks ∷ rows) d =
    omega (arith, length-intern_row toks d, length-intern_rows rows (intern_row toks d).1)

fresh-IsInterner :
    (slice : Bytes) (d : Dict ℕ)
    → IsInterner d
    → lookup slice d ≡ none
    → IsInterner ((slice, length d) ∷ d)
unfolding lookup
fresh-IsInterner slice d h e = record {
  below = λ s id f. elim (Bool-cases (bytes_eq slice s)) [
    | inl same ↦ ground arith
    | inr other ↦ omega (arith, h.below s id (ground arith))
  ];
  injective = λ s t id f g. elim (Bool-cases (bytes_eq slice s)) [
    | inl same ↦ elim (Bool-cases (bytes_eq slice t)) [
      | inl same' ↦ sym (bytes_eq→eq slice s same) ∙ bytes_eq→eq slice t same'
      | inr other' ↦
          let value : length d ≡ id = ground arith in
          absurd (omega (arith, h.below t id (ground arith)))
    ]
    | inr other ↦ elim (Bool-cases (bytes_eq slice t)) [
      | inl same' ↦
          let value : length d ≡ id = ground arith in
          absurd (omega (arith, h.below s id (ground arith)))
      | inr other' ↦ h.injective s t id (ground arith) (ground arith)
    ]
  ];
}

-- With at most 2 ^ 32 texts, the conversion to `uint32` keeps each new id.
intern_slice-IsInterner :
    (slice : Bytes) (d : Dict ℕ)
    → IsInterner d
    → length (intern_slice slice d).1 ≤ u32_mod
    → IsInterner (intern_slice slice d).1
unfolding intern_slice
intern_slice-IsInterner slice d h fits = elim (Option-cases (lookup slice d)) [
  | inl e ↦
      let id = length d % u32_mod in
      let new : (intern_slice slice d).1 ≡ (slice, id) ∷ d = rw (e, intern_slice) refl in
      let small : length d < u32_mod = omega (arith, ap length new) in
      let whole : length d ≡ id = omega arith in
      subst IsInterner (sym new)
        (subst (λ i. IsInterner ((slice, i) ∷ d)) whole (fresh-IsInterner slice d h e))
  | inr (id, e) ↦ rw (e, intern_slice) h
]

intern_row-IsInterner :
    (toks : List Token) (d : Dict ℕ)
    → IsInterner d
    → length (intern_row toks d).1 ≤ u32_mod
    → IsInterner (intern_row toks d).1
unfolding intern_row
intern_row-IsInterner [] d h fits = h
intern_row-IsInterner (tok ∷ toks) d h fits =
    let d1 = (intern_slice tok.slice d).1 in
    intern_row-IsInterner toks d1
      (intern_slice-IsInterner tok.slice d h (omega (arith, length-intern_row toks d1))) fits

intern_rows-IsInterner :
    (tokenized : List (List Token)) (d : Dict ℕ)
    → IsInterner d
    → length (intern_rows tokenized d).1 ≤ u32_mod
    → IsInterner (intern_rows tokenized d).1
unfolding intern_rows
intern_rows-IsInterner [] d h fits = h
intern_rows-IsInterner (toks ∷ rows) d h fits =
    let d1 = (intern_row toks d).1 in
    intern_rows-IsInterner rows d1
      (intern_row-IsInterner toks d h (omega (arith, length-intern_rows rows d1))) fits

-- No ids given yet.
pub no_ids-IsInterner : IsInterner []
unfolding lookup
no_ids-IsInterner = record { below = λ s id e. absurd (cc); injective = λ s t id e f. absurd (cc) }

-- From an interner whose ids are below the number of its texts and different for different texts,
-- and with at most 2^32 texts in the end, interning gives each token the id of its text, keeps the
-- ids that were given, and leaves such an interner.
pub intern_rows-AllHaveIds :
    (tokenized : List (List Token)) (interner : Dict ℕ)
    → IsInterner interner
    → length (intern_rows tokenized interner).1 ≤ u32_mod
    → AllHaveIds (intern_rows tokenized interner).1 tokenized (intern_rows tokenized interner).0
      × Keeps interner (intern_rows tokenized interner).1
      × IsInterner (intern_rows tokenized interner).1
intern_rows-AllHaveIds tokenized d h fits =
    let (ids, keep) = intern_rows-HasIds tokenized d in
    (ids, keep, intern_rows-IsInterner tokenized d h fits)
