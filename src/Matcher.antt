-- ===== src/Matcher.antt =====
-- matcher.go: a compiled template and its match against a message. The indexes that choose the
-- templates to try are not modelled.
pub mod Match
pub mod Decodes
pub mod Capture
pub mod Leading
pub mod Batch
use tipping.Base.{
  ℕ, zero, suc, ◌+◌, ◌-◌, Bool, true, false, ◌&&◌, not, List, [], ◌∷◌, ◌++◌, Option, none, some,
  ◌==◌, leb, if◌then◌else◌, length, get_or, take, drop, Bytes, bytes_eq,
}
use tipping.Strings.{has_prefix, has_suffix, index, split}
use tipping.Template.{placeholder}
use tipping.Dict.{Dict, lookup}

pub record CompiledTemplate : Type 0 where
  pub id : ℕ
  pub template : Bytes
  pub parts : List Bytes
  pub placeholder_count : ℕ
  pub literal_bytes : ℕ
  pub min_msg_len : ℕ
  pub first_literal : Bytes
  pub last_literal : Bytes

-- `for _, p := range parts { literalBytes += len(p) }`
unfoldable pub count_bytes : List Bytes → ℕ
count_bytes [] = 0
count_bytes (p ∷ parts) = length p + count_bytes parts

-- `strings.Split` returns at least one part, so `parts[0]` and the last part are there.
unfoldable pub compile_template : ℕ → Bytes → CompiledTemplate
compile_template id tmpl =
    let parts = split tmpl placeholder in
    record {
      id = id;
      template = tmpl;
      parts = parts;
      placeholder_count = length parts - 1;
      literal_bytes = count_bytes parts;
      min_msg_len = count_bytes parts + length parts - 1;
      first_literal = get_or parts 0 [];
      last_literal = get_or parts (length parts - 1) [];
    }

-- `if capture { args = append(args, arg) }`
abbrev pub push : Bool → List Bytes → Bytes → List Bytes
push capture args arg = if capture then args ++ arg ∷ [] else args

-- The loop of `matchInternal`, over `parts[i+1:]`, with the `return` behind it.
unfoldable pub match_loop : Bool → Bytes → ℕ → List Bytes → List Bytes → Option (List Bytes)
match_loop capture msg cursor [] args = if cursor == length msg then some args else none
match_loop capture msg cursor ([] ∷ []) args =
    let rest = match_loop capture msg (length msg) [] (push capture args (drop cursor msg)) in
    if leb (length msg) cursor then none else rest
match_loop capture msg cursor ((b ∷ next) ∷ []) args =
    let end = length msg - length (b ∷ next) in
    let rest =
      match_loop capture msg (end + length (b ∷ next)) []
        (push capture args (take (end - cursor) (drop cursor msg))) in
    if not (has_suffix msg (b ∷ next)) then none else if leb end cursor then none else rest
match_loop capture msg cursor ([] ∷ q ∷ parts) args = none
match_loop capture msg cursor ((b ∷ next) ∷ q ∷ parts) args =
    elim (index (drop cursor msg) (b ∷ next)) [
      | none ↦ none
      | some zero ↦ none
      | some (suc i) ↦
          match_loop capture msg (cursor + (suc i + length (b ∷ next))) (q ∷ parts)
            (push capture args (take (suc i) (drop cursor msg)))
    ]

-- `matchInternal` behind its first test: the first literal, and the loop.
unfoldable pub match_parts : Bool → Bytes → List Bytes → Option (List Bytes)
match_parts capture msg [] = none
match_parts capture msg (first ∷ parts) =
    if has_prefix msg first then match_loop capture msg (length first) parts [] else none

unfoldable pub match_internal : Bool → CompiledTemplate → Bytes → Option (List Bytes)
match_internal capture t msg =
    if t.placeholder_count == 0
    then (if bytes_eq msg t.template then some [] else none)
    else match_parts capture msg t.parts

-- `compiledTemplate.match`
unfoldable pub match_template : CompiledTemplate → Bytes → Option (List Bytes)
match_template = match_internal true

-- `compiledTemplate.matches`
unfoldable pub matches : CompiledTemplate → Bytes → Bool
matches t msg = elim (match_internal false t msg) [ none ↦ false | some args ↦ true ]

-- The loop of `MatchAllIDs` with its cache; `none` is -1, both in the cache and in the result.
unfoldable pub match_all_loop : (Bytes → Option ℕ) → Dict (Option ℕ) → List Bytes → List (Option ℕ)
match_all_loop match_id cache [] = []
match_all_loop match_id cache (msg ∷ messages) =
    let id = match_id msg in
    elim (lookup msg cache) [
      | some known ↦ known ∷ match_all_loop match_id cache messages
      | none ↦ id ∷ match_all_loop match_id ((msg, id) ∷ cache) messages
    ]

-- `MatchAllIDs`, for any `MatchID`.
unfoldable pub match_all_ids : (Bytes → Option ℕ) → List Bytes → List (Option ℕ)
match_all_ids match_id messages = match_all_loop match_id [] messages
