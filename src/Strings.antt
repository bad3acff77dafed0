-- ===== src/Strings.antt =====
-- What the program uses of Go's `strings` package, over lists of bytes.
pub mod Index
pub mod Lacks
pub mod Join
use tipping.Base.{
  ℕ, zero, suc, ◌+◌, ◌-◌, Bool, true, false, ◌&&◌, List, [], ◌∷◌, ◌++◌, Option, none, some, ◌==◌,
  leb, if◌then◌else◌, length, take, drop, Bytes, bytes_eq,
}

-- `strings.HasPrefix`
unfoldable pub has_prefix : Bytes → Bytes → Bool
has_prefix s [] = true
has_prefix [] (p ∷ ps) = false
has_prefix (b ∷ s) (p ∷ ps) = b == p && has_prefix s ps

-- `strings.HasSuffix`
unfoldable pub has_suffix : Bytes → Bytes → Bool
has_suffix s suffix =
    leb (length suffix) (length s) && bytes_eq (drop (length s - length suffix) s) suffix

abbrev pub shift : Option ℕ → Option ℕ
shift none = none
shift (some i) = some (suc i)

-- `strings.Index`: where the first occurrence begins.
unfoldable pub index : Bytes → Bytes → Option ℕ
index [] needle = if has_prefix [] needle then some 0 else none
index (b ∷ s) needle = if has_prefix (b ∷ s) needle then some 0 else shift (index s needle)

-- `strings.Contains`
unfoldable pub contains : Bytes → Bytes → Bool
unfolding index has_prefix
contains s needle = elim (index s needle) [ none ↦ false | some i ↦ true ]

-- The loop of `strings.Split`. A match takes a byte or more where `sep` is not empty, so the length
-- of the text is enough fuel.
unfoldable pub split_on : ℕ → Bytes → Bytes → List Bytes
split_on zero s sep = s ∷ []
split_on (suc fuel) s sep = elim (index s sep) [
  | none ↦ s ∷ []
  | some i ↦ take i s ∷ split_on fuel (drop (i + length sep) s) sep
]

-- `strings.Split`, for a separator that is not empty.
unfoldable pub split : Bytes → Bytes → List Bytes
unfolding split_on index has_prefix
split s sep = split_on (length s) s sep

-- The parts with the separator between them.
unfoldable pub join : List Bytes → Bytes → Bytes
join [] sep = []
join (p ∷ []) sep = p
join (p ∷ q ∷ ps) sep = p ++ (sep ++ join (q ∷ ps) sep)
