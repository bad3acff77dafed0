-- ===== src/TokenRecord/Weights.antt =====
-- Counting unique lines with their weights (token_record.go) beside counting every line (parser.go).
use tipping.Base.{
  ◌≢◌, ◌^◌, subst, ℕ, zero, suc, ◌+◌, ◌%◌, ◌≤◌, ◌<◌, ◌≡◌, refl, sym, ap, ◌∙◌, Bool, List, [], ◌∷◌,
  length, get_or, get_elem?, some, Bytes, if◌then◌else◌, map, arith, replicate, length-map,
}
use tipping.Token.{Token}
use tipping.Filter.{StaticFilter}
use tipping.Template.{u32_mod}
use tipping.Template.Shared.{AllBelow}
use tipping.Template.Rows.{Below}
use tipping.Dedup.{dedup}
use tipping.Dedup.Rows.{length-LeadTo, count_of, LeadTo, dedup-IsDedup}
use tipping.TokenRecord.{new_token_pair_id, TokenRecord, new_token_record}
use tipping.TokenRecord.Row.{kept_in}
use tipping.TokenRecord.Counts.{weigh, kept_both, occ-new_token_record, co-new_token_record}

-- How many of the rows lead to a line that passes, line by line from number `s` on.
tally : (Bytes → Bool) → ℕ → List Bytes → List ℕ → ℕ
tally test s [] rows = 0
tally test s (m ∷ unique) rows =
    (if test m then count_of s rows else 0) + tally test (s + 1) unique rows

-- How many of the lines pass.
passing : (Bytes → Bool) → List Bytes → ℕ
passing test [] = 0
passing test (m ∷ messages) = (if test m then 1 else 0) + passing test messages

module _ (test : Bytes → Bool) where
  tally-nil : (s : ℕ) (unique : List Bytes) → tally test s unique [] ≡ 0
  unfolding tally
  tally-nil s [] = refl
  tally-nil s (m ∷ unique) = ground (arith, tally-nil (s + 1) unique)

  tally-skip :
      (s i : ℕ) (unique : List Bytes) (rows : List ℕ)
      → i < s
      → tally test s unique (i ∷ rows) ≡ tally test s unique rows
  unfolding tally
  tally-skip s i [] rows h = refl
  tally-skip s i (m ∷ unique) rows h = ground (arith, tally-skip (s + 1) i unique rows)

  tally-cons :
      (s i : ℕ) (unique : List Bytes) (rows : List ℕ) (m : Bytes)
      → get_elem? unique i ≡ some m
      → tally test s unique ((s + i) ∷ rows) ≡ (if test m then 1 else 0) + tally test s unique rows
  unfolding tally
  tally-cons s i [] rows m h = absurd (cc)
  tally-cons s zero (k ∷ unique) rows m h =
      let e : s + 0 ≡ s = omega arith in
      let same : k ≡ m = cc in rw (e, same) (ground (arith, tally-skip (s + 1) s unique rows))
  tally-cons s (suc i) (k ∷ unique) rows m h =
      let e : s + suc i ≡ s + 1 + i = omega arith in
      rw e (ground (arith, tally-cons (s + 1) i unique rows m h))

  tally-passing :
      (unique messages : List Bytes) (rows : List ℕ)
      → LeadTo unique rows messages
      → tally test 0 unique rows ≡ passing test messages
  unfolding passing
  tally-passing unique [] [] h = tally-nil 0 unique
  tally-passing unique (k ∷ messages) [] h = absurd h
  tally-passing unique [] (i ∷ rows) h = absurd h
  tally-passing unique (k ∷ messages) (i ∷ rows) (e, h) =
      let at : 0 + i ≡ i = omega arith in
      let step : tally test 0 unique (i ∷ rows)
          ≡ (if test k then 1 else 0) + tally test 0 unique rows =
        subst
          (λ r.
            tally test 0 unique (r ∷ rows) ≡ (if test k then 1 else 0) + tally test 0 unique rows)
          at (tally-cons 0 i unique rows k e) in
      omega (arith, step, tally-passing unique messages rows h)

module _ (f : Bytes → List Token) (g : Bytes → List ℕ) (test : List Token → List ℕ → Bool) where
  weigh-tally :
      (s : ℕ) (unique : List Bytes) (counts rows : List ℕ)
      → ((k : ℕ) → get_or counts k 0 ≡ count_of (s + k) rows)
      → length counts ≡ length unique
      → weigh test counts (map f unique) (map g unique)
        ≡ tally (λ m. test (f m) (g m)) s unique rows
  unfolding tally
  weigh-tally s [] [] rows h e = refl
  weigh-tally s [] (c ∷ counts) rows h e = absurd (omega arith)
  weigh-tally s (m ∷ unique) [] rows h e = absurd (omega arith)
  weigh-tally s (m ∷ unique) (c ∷ counts) rows h e =
      let at : s + 0 ≡ s = omega arith in
      let first : c ≡ count_of s rows = h 0 ∙ ap (λ k. count_of k rows) at in
      rw first (
        ap (λ k. (if test (f m) (g m) then count_of s rows else 0) + k)
          (weigh-tally (s + 1) unique counts rows
            (λ k. h (suc k) ∙ ap (λ q. count_of q rows) (shift k)) (omega arith)))
    where
      shift : (k : ℕ) → s + suc k ≡ s + 1 + k
      shift k = omega arith

  weigh-passing :
      (messages : List Bytes)
      → weigh test (replicate (length messages) 1) (map f messages) (map g messages)
        ≡ passing (λ m. test (f m) (g m)) messages
  unfolding passing
  weigh-passing [] = refl
  weigh-passing (m ∷ messages) =
      ap (λ k. (if test (f m) (g m) then 1 else 0) + k) (weigh-passing messages)

  weigh-dedup :
      (messages : List Bytes)
      → length messages < u32_mod
      → weigh test
          (dedup messages).counts
          (map f (dedup messages).unique_msgs)
          (map g (dedup messages).unique_msgs)
        ≡ weigh test (replicate (length messages) 1) (map f messages) (map g messages)
  weigh-dedup messages small =
      let l = dedup messages in
      let d = dedup-IsDedup messages small in
      let zero_first : (k : ℕ) → 0 + k ≡ k = λ k. omega arith in
      weigh-tally 0 l.unique_msgs l.counts l.row_of
        (λ k. d.counted k ∙ ap (λ q. count_of q l.row_of) (sym (zero_first k))) d.same_length
      ∙ tally-passing (λ m. test (f m) (g m)) l.unique_msgs messages l.row_of d.leads
      ∙ sym (weigh-passing messages)

-- The counts that `parse` gets from the distinct lines.
abbrev pub by_line :
    StaticFilter → (Bytes → List Token) → (Bytes → List ℕ) → ℕ → List Bytes → TokenRecord
by_line filter f g num_ids messages =
    new_token_record filter (dedup messages).counts (map f (dedup messages).unique_msgs)
      (map g (dedup messages).unique_msgs) num_ids

-- And those from every message.
abbrev pub by_message :
    StaticFilter → (Bytes → List Token) → (Bytes → List ℕ) → ℕ → List Bytes → TokenRecord
by_message filter f g num_ids messages =
    new_token_record filter (replicate (length messages) 1) (map f messages) (map g messages)
      num_ids

get_elem?-Below :
    (g : Bytes → List ℕ) (n r : ℕ) (unique : List Bytes) (m : Bytes)
    → get_elem? unique r ≡ some m
    → AllBelow n (map g unique)
    → Below n (g m)
get_elem?-Below g n r [] m e h = absurd (cc)
get_elem?-Below g n zero (k ∷ unique) m e (h, t) = subst (λ x. Below n (g x)) (cc) h
get_elem?-Below g n (suc r) (k ∷ unique) m e (h, t) = get_elem?-Below g n r unique m e t

LeadTo-AllBelow :
    (g : Bytes → List ℕ) (n : ℕ) (unique : List Bytes) (rows : List ℕ) (messages : List Bytes)
    → LeadTo unique rows messages
    → AllBelow n (map g unique)
    → AllBelow n (map g messages)
LeadTo-AllBelow g n unique rows [] h below = tt
LeadTo-AllBelow g n unique [] (m ∷ messages) h below = absurd h
LeadTo-AllBelow g n unique (r ∷ rows) (m ∷ messages) (e, h) below =
    (get_elem?-Below g n r unique m e below, LeadTo-AllBelow g n unique rows messages h below)

module _ (filter : StaticFilter) (f : Bytes → List Token) (g : Bytes → List ℕ) (num_ids : ℕ)
    (messages : List Bytes) (le : num_ids ≤ u32_mod) (small : length messages < u32_mod)
    (below : AllBelow num_ids (map g (dedup messages).unique_msgs)) where
  unique_small : length (map f (dedup messages).unique_msgs) < u32_mod
  unique_small =
      let d = dedup-IsDedup messages small in
      let l = dedup messages in
      omega (
        arith,
        length-map l.unique_msgs f,
        d.fewer,
        length-LeadTo l.unique_msgs l.row_of messages d.leads,
      )

  messages_small : length (map f messages) < u32_mod
  messages_small = omega (arith, length-map messages f)

  messages_below : AllBelow num_ids (map g messages)
  messages_below =
      let l = dedup messages in
      LeadTo-AllBelow g num_ids l.unique_msgs l.row_of messages (dedup-IsDedup messages small).leads
        below

-- The occurrence counts from the distinct lines with their weights are those from all messages
-- with weight 1, for rows and ids that depend on the line only, ids below their number, at most
-- 2^32 of them, and fewer than 2^32 messages.
pub occ-by_line :
    (filter : StaticFilter) (f : Bytes → List Token) (g : Bytes → List ℕ) (num_ids id : ℕ)
    (messages : List Bytes)
    → num_ids ≤ u32_mod
    → length messages < u32_mod
    → AllBelow num_ids (map g (dedup messages).unique_msgs)
    → get_or (by_line filter f g num_ids messages).occ id 0
      ≡ get_or (by_message filter f g num_ids messages).occ id 0
occ-by_line filter f g num_ids id messages le small below =
    let l = dedup messages in
    occ-new_token_record filter l.counts (map f l.unique_msgs) (map g l.unique_msgs) num_ids id le
      (unique_small filter f g num_ids messages le small below) below
    ∙ ap (λ w. w % u32_mod)
        (weigh-dedup f g (λ toks rids. kept_in filter toks rids id) messages small)
    ∙ sym (
        occ-new_token_record filter (replicate (length messages) 1) (map f messages)
          (map g messages) num_ids id le (messages_small filter f g num_ids messages le small below)
          (messages_below filter f g num_ids messages le small below))

-- The counts of pairs of two different ids from the distinct lines with their weights are those
-- from all messages with weight 1, for rows and ids that depend on the line only, ids below their
-- number, at most 2^32 of them, and fewer than 2^32 messages.
pub co-by_line :
    (filter : StaticFilter) (f : Bytes → List Token) (g : Bytes → List ℕ) (num_ids a b : ℕ)
    (messages : List Bytes)
    → num_ids ≤ u32_mod
    → length messages < u32_mod
    → AllBelow num_ids (map g (dedup messages).unique_msgs)
    → a < 2 ^ 32
    → b < 2 ^ 32
    → a ≢ b
    → (by_line filter f g num_ids messages).co (new_token_pair_id a b)
      ≡ (by_message filter f g num_ids messages).co (new_token_pair_id a b)
co-by_line filter f g num_ids a b messages le small below ha hb apart =
    let l = dedup messages in
    co-new_token_record filter l.counts (map f l.unique_msgs) (map g l.unique_msgs) num_ids a b le
      (unique_small filter f g num_ids messages le small below) below ha hb apart
    ∙ ap (λ w. w % u32_mod) (weigh-dedup f g (kept_both filter a b) messages small)
    ∙ sym (
        co-new_token_record filter (replicate (length messages) 1) (map f messages) (map g messages)
          num_ids a b le (messages_small filter f g num_ids messages le small below)
          (messages_below filter f g num_ids messages le small below) ha hb apart)
