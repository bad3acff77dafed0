-- ===== src/Intern.antt =====
-- `internRows` of parser.go: a dense id for each distinct token text. Only the texts count, not
-- the kinds of the tokens.
pub mod Ids
use tipping.Base.{ℕ, ◌%◌, List, [], ◌∷◌, Option, none, some, length, Bytes}
use tipping.Dict.{Dict, lookup}
use tipping.Token.{Token}
use tipping.Template.{u32_mod}

-- `id, ok := interner[tok.Slice]`, and the new entry under `uint32(len(interner))`; `len(interner)`
-- is the length of the list, since no key is put in twice.
unfoldable pub intern_slice : Bytes → Dict ℕ → ℕ × Dict ℕ
intern_slice slice interner = elim (lookup slice interner) [
  | some id ↦ (id, interner)
  | none ↦ (length interner % u32_mod, (slice, length interner % u32_mod) ∷ interner)
]

-- The loop over the tokens of a row.
unfoldable pub intern_row : List Token → Dict ℕ → List ℕ × Dict ℕ
intern_row [] interner = ([], interner)
intern_row (tok ∷ toks) interner =
    let first = intern_slice tok.slice interner in
    let rest = intern_row toks first.1 in (first.0 ∷ rest.0, rest.1)

-- The ids of each row. `flat` is only the memory behind the rows.
unfoldable pub intern_rows : List (List Token) → Dict ℕ → List (List ℕ) × Dict ℕ
intern_rows [] interner = ([], interner)
intern_rows (toks ∷ tokenized) interner =
    let first = intern_row toks interner in
    let rest = intern_rows tokenized first.1 in (first.0 ∷ rest.0, rest.1)
