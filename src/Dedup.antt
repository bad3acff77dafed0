-- ===== src/Dedup.antt =====
-- The first loop of `parse` (parser.go): each distinct line is kept once, with the number of its
-- occurrences, and each message is given the row of its line.
pub mod Rows
use tipping.Base.{
  ℕ, ◌+◌, ◌≤◌, ◌-◌, ◌%◌, ◌^◌, Bool, List, [], ◌∷◌, ◌++◌, Option, none, some, length, get_or, set,
  Bytes, leb, if◌then◌else◌,
}
use tipping.Dict.{Dict, lookup}
use tipping.Template.{add32}

pub record Lines : Type 0 where
  pub line_index : Dict ℕ
  pub unique_msgs : List Bytes
  pub counts : List ℕ
  pub row_of : List ℕ

abbrev pub no_lines : Lines
no_lines = record { line_index = []; unique_msgs = []; counts = []; row_of = [] }

-- `counts[id]++`, on `uint32`.
abbrev pub count_line : List ℕ → ℕ → List ℕ
count_line counts id = set counts id (add32 (get_or counts id 0) 1)

-- The body of the loop. `parse` has refused more messages than `int32` can count, so `int32(…)` keeps
-- each row's number.
unfoldable pub add_line : Bytes → Lines → Lines
add_line msg l = elim (lookup msg l.line_index) [
  | some id ↦ record l { counts = count_line l.counts id; row_of = l.row_of ++ id ∷ [] }
  | none ↦
      let id = length l.unique_msgs in
      record {
        line_index = (msg, id) ∷ l.line_index;
        unique_msgs = l.unique_msgs ++ msg ∷ [];
        counts = count_line (l.counts ++ 0 ∷ []) id;
        row_of = l.row_of ++ id ∷ [];
      }
]

unfoldable pub add_lines : List Bytes → Lines → Lines
add_lines [] l = l
add_lines (msg ∷ messages) l = add_lines messages (add_line msg l)

unfoldable pub dedup : List Bytes → Lines
dedup messages = add_lines messages no_lines
