-- ===== src/Dedup/Rows.antt =====
-- Rows, lines and counts after the deduplication of parser.go.
use tipping.Base.{
  subst, append-nil, ℕ, zero, suc, ◌+◌, ◌≤◌, ◌<◌, ◌≡◌, refl, sym, ap, ◌∙◌, List, [], ◌∷◌, ◌++◌,
  none, some, length, get_or, Bytes, if◌then◌else◌, ◌==◌, arith, Option-cases, Bool-cases, inl, inr,
  get_elem?, get_elem?-append_left, get_elem?-append_length, get_elem?-lt, get_elem?-snoc,
  length-append, length-set, get_or-set, append_assoc, bytes_eq, bytes_eq→eq,
}
use tipping.Dict.{lookup, lookup_self, lookup_new}
use tipping.Template.{u32_mod, add32}
use tipping.Dedup.{Lines, no_lines, count_line, add_line, add_lines, dedup}

-- How often a row is given.
abbrev pub count_of : ℕ → List ℕ → ℕ
count_of r [] = 0
count_of r (i ∷ rows) = (if i == r then 1 else 0) + count_of r rows

pub count_of-snoc :
    (r : ℕ) (xs : List ℕ) (i : ℕ)
    → count_of r (xs ++ i ∷ []) ≡ count_of r xs + (if i == r then 1 else 0)
count_of-snoc r [] i = omega arith
count_of-snoc r (x ∷ xs) i = omega (arith, count_of-snoc r xs i)

count_of-le : (r : ℕ) (xs : List ℕ) → count_of r xs ≤ length xs
count_of-le r [] = omega arith
count_of-le r (x ∷ xs) = ground (arith, count_of-le r xs)

-- Rows that lead to the messages, one for each.
abbrev pub LeadTo : List Bytes → List ℕ → List Bytes → Type 0
LeadTo unique [] [] = Unit {0}
LeadTo unique (r ∷ rows) (m ∷ messages) =
    (get_elem? unique r ≡ some m) × LeadTo unique rows messages
LeadTo unique rows messages = ⊥

-- What holds after each round, for the messages read so far.
pub record IsDedup (messages : List Bytes) (l : Lines) : Type 0 where
  pub leads : LeadTo l.unique_msgs l.row_of messages
  pub distinct :
      (i j : ℕ) (m : Bytes)
      → get_elem? l.unique_msgs i ≡ some m
      → get_elem? l.unique_msgs j ≡ some m
      → i ≡ j
  pub counted : (r : ℕ) → get_or l.counts r 0 ≡ count_of r l.row_of
  pub same_length : length l.counts ≡ length l.unique_msgs
  pub fewer : length l.unique_msgs ≤ length l.row_of

LeadTo-snoc :
    (unique : List Bytes) (rows : List ℕ) (messages : List Bytes) (r : ℕ) (m : Bytes)
    → get_elem? unique r ≡ some m
    → LeadTo unique rows messages
    → LeadTo unique (rows ++ r ∷ []) (messages ++ m ∷ [])
LeadTo-snoc unique [] [] r m e h = (e, tt)
LeadTo-snoc unique [] (k ∷ messages) r m e h = absurd h
LeadTo-snoc unique (i ∷ rows) [] r m e h = absurd h
LeadTo-snoc unique (i ∷ rows) (k ∷ messages) r m e (g, h) =
    (g, LeadTo-snoc unique rows messages r m e h)

LeadTo-grow :
    (unique more : List Bytes) (rows : List ℕ) (messages : List Bytes)
    → LeadTo unique rows messages
    → LeadTo (unique ++ more) rows messages
LeadTo-grow unique more [] [] h = tt
LeadTo-grow unique more [] (k ∷ messages) h = absurd h
LeadTo-grow unique more (i ∷ rows) [] h = absurd h
LeadTo-grow unique more (i ∷ rows) (k ∷ messages) (g, h) =
    (get_elem?-append_left unique more i g, LeadTo-grow unique more rows messages h)

pub length-LeadTo :
    (unique : List Bytes) (rows : List ℕ) (messages : List Bytes)
    → LeadTo unique rows messages
    → length rows ≡ length messages
length-LeadTo unique [] [] h = refl
length-LeadTo unique [] (k ∷ messages) h = absurd h
length-LeadTo unique (i ∷ rows) [] h = absurd h
length-LeadTo unique (i ∷ rows) (k ∷ messages) (g, h) =
    ap suc (length-LeadTo unique rows messages h)

-- The index holds exactly the lines kept.
record IsIndex (l : Lines) : Type 0 where
  sound :
      (m : Bytes) (id : ℕ) → lookup m l.line_index ≡ some id → get_elem? l.unique_msgs id ≡ some m
  complete :
      (m : Bytes) (id : ℕ) → get_elem? l.unique_msgs id ≡ some m → lookup m l.line_index ≡ some id

count_line-counted :
    (counts rows : List ℕ) (id r : ℕ)
    → id < length counts
    → length rows + 1 < u32_mod
    → ((q : ℕ) → get_or counts q 0 ≡ count_of q rows)
    → get_or (count_line counts id) r 0 ≡ count_of r (rows ++ id ∷ [])
count_line-counted counts rows id r h small c = ground (
  arith,
  get_or-set counts id r (add32 (get_or counts id 0) 1) 0 h,
  c id,
  c r,
  count_of-snoc r rows id,
  count_of-le id rows,
)

get_or-snoc_zero : (xs : List ℕ) (i : ℕ) → get_or (xs ++ 0 ∷ []) i 0 ≡ get_or xs i 0
get_or-snoc_zero [] zero = refl
get_or-snoc_zero [] (suc i) = refl
get_or-snoc_zero (x ∷ xs) zero = refl
get_or-snoc_zero (x ∷ xs) (suc i) = get_or-snoc_zero xs i

-- A line that is in the index, and one that is new.
known_line : (id : ℕ) → Lines → Lines
known_line id l = record l { counts = count_line l.counts id; row_of = l.row_of ++ id ∷ [] }

new_line : Bytes → Lines → Lines
new_line msg l = record {
  line_index = (msg, length l.unique_msgs) ∷ l.line_index;
  unique_msgs = l.unique_msgs ++ msg ∷ [];
  counts = count_line (l.counts ++ 0 ∷ []) (length l.unique_msgs);
  row_of = l.row_of ++ length l.unique_msgs ∷ [];
}

module _ (messages : List Bytes) (msg : Bytes) (l : Lines) (h : IsDedup messages l) (x : IsIndex l)
    (small : length messages + 1 < u32_mod) where
  known_line-IsDedup :
      (id : ℕ)
      → lookup msg l.line_index ≡ some id
      → IsDedup (messages ++ msg ∷ []) (known_line id l)
  unfolding known_line
  known_line-IsDedup id e =
      let at_id = x.sound msg id e in
      let len = length-LeadTo l.unique_msgs l.row_of messages h.leads in
      record {
        leads = LeadTo-snoc l.unique_msgs l.row_of messages id msg at_id h.leads;
        distinct = h.distinct;
        counted = λ r.
            count_line-counted l.counts l.row_of id r
              (omega (arith, get_elem?-lt l.unique_msgs id at_id, h.same_length)) (omega arith)
              h.counted;
        same_length = length-set l.counts id _ ∙ h.same_length;
        fewer = omega (arith, h.fewer, length-append l.row_of (id ∷ []));
      }

  new_line-IsIndex : lookup msg l.line_index ≡ none → IsIndex (new_line msg l)
  unfolding new_line lookup
  new_line-IsIndex e = record {
    sound = λ m id f. elim (Bool-cases (bytes_eq msg m)) [
      | inl same ↦
          let value : length l.unique_msgs ≡ id = ground arith in
          let text = bytes_eq→eq msg m same in
          rw (← value, ← text) (get_elem?-append_length l.unique_msgs msg [])
      | inr other ↦ get_elem?-append_left l.unique_msgs (msg ∷ []) id (x.sound m id (ground arith))
    ];
    complete = λ m id f. elim (get_elem?-snoc l.unique_msgs msg id f) [
      | inl old ↦ lookup_new msg m (length l.unique_msgs) l.line_index e (x.complete m id old)
      | inr (at_end, text) ↦
          subst (λ k. lookup k ((msg, length l.unique_msgs) ∷ l.line_index) ≡ some id) (sym text)
            (lookup_self msg (length l.unique_msgs) l.line_index ∙ ap some (sym at_end))
    ];
  }

  new_line-IsDedup :
      lookup msg l.line_index ≡ none → IsDedup (messages ++ msg ∷ []) (new_line msg l)
  unfolding new_line
  new_line-IsDedup e =
      let n = length l.unique_msgs in
      let grown = l.counts ++ 0 ∷ [] in
      let len = length-LeadTo l.unique_msgs l.row_of messages h.leads in
      let size : length grown ≡ n + 1 =
        omega (arith, length-append l.counts (0 ∷ []), h.same_length) in
      record {
        leads =
            LeadTo-snoc (l.unique_msgs ++ msg ∷ []) l.row_of messages n msg
              (get_elem?-append_length l.unique_msgs msg [])
              (LeadTo-grow l.unique_msgs (msg ∷ []) l.row_of messages h.leads);
        distinct =
            λ i j m p q. let y = new_line-IsIndex e in cc (y.complete m i p, y.complete m j q);
        counted = λ r.
            count_line-counted grown l.row_of n r (omega arith) (omega arith)
              (λ q. get_or-snoc_zero l.counts q ∙ h.counted q);
        same_length =
            length-set grown n _ ∙ omega (arith, size, length-append l.unique_msgs (msg ∷ []));
        fewer = omega (
          arith,
          h.fewer,
          length-append l.unique_msgs (msg ∷ []),
          length-append l.row_of (n ∷ []),
        );
      }

known_line-IsIndex : (id : ℕ) (l : Lines) → IsIndex l → IsIndex (known_line id l)
unfolding known_line
known_line-IsIndex id l x = record { sound = x.sound; complete = x.complete }

add_line-IsDedup :
    (messages : List Bytes) (msg : Bytes) (l : Lines)
    → IsDedup messages l
    → IsIndex l
    → length messages + 1 < u32_mod
    → IsDedup (messages ++ msg ∷ []) (add_line msg l) × IsIndex (add_line msg l)
unfolding add_line
add_line-IsDedup messages msg l h x small = elim (Option-cases (lookup msg l.line_index)) [
  | inl e ↦
      rw (e, add_line)
        (unfold new_line in
          (
            new_line-IsDedup messages msg l h x small e,
            new_line-IsIndex messages msg l h x small e,
          ))
  | inr (id, e) ↦
      rw (e, add_line)
        (unfold known_line in
          (known_line-IsDedup messages msg l h x small id e, known_line-IsIndex id l x))
]

add_lines-IsDedup :
    (before messages : List Bytes) (l : Lines)
    → IsDedup before l
    → IsIndex l
    → length before + length messages < u32_mod
    → IsDedup (before ++ messages) (add_lines messages l)
unfolding add_lines
add_lines-IsDedup before [] l h x small = rw append-nil h
add_lines-IsDedup before (msg ∷ messages) l h x small =
    let (h', x') = add_line-IsDedup before msg l h x (omega arith) in
    subst (λ all_messages. IsDedup all_messages (add_lines messages (add_line msg l)))
      (append_assoc before (msg ∷ []) messages)
      (add_lines-IsDedup (before ++ msg ∷ []) messages (add_line msg l) h' x'
        (omega (arith, length-append before (msg ∷ []))))

-- After the deduplication each message's row leads to its text, no text stands in two rows, and
-- each count is the number of messages of its row, for fewer than 2^32 messages.
pub dedup-IsDedup :
    (messages : List Bytes) → length messages < u32_mod → IsDedup messages (dedup messages)
unfolding dedup
dedup-IsDedup messages small =
    add_lines-IsDedup [] messages no_lines
      (record {
        leads = tt;
        distinct = λ i j m p q. absurd (cc);
        counted = λ r. refl;
        same_length = refl;
        fewer = omega arith;
      })
      (record { sound = λ m id f. absurd (unfold lookup in cc); complete = λ m id f. absurd (cc) })
      (omega arith)
