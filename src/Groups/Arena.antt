-- ===== src/Groups/Arena.antt =====
-- The keys and the anchors of a shard (parser.go), read back from its arenas.
use tipping.Base.{
  ◌==◌, subst, append-nil, ℕ, zero, suc, ◌+◌, ◌-◌, ◌≤◌, ◌<◌, ◌≡◌, refl, sym, ap, ◌∙◌, List, [], ◌∷◌,
  ◌++◌, length, get_or, take, drop, ltb, if◌then◌else◌, map, map-append, arith, append_assoc,
  length-append, Bool-cases, inl, inr, ◌⊎◌,
}
use tipping.Groups.{KeyedRow, AnchorShard, fill_shard, arena_at}

get_or-snoc :
    (xs : List ℕ) (v j : ℕ)
    → get_or (xs ++ v ∷ []) j 0
      ≡ (if ltb j (length xs) then get_or xs j 0 else if j == length xs then v else 0)
get_or-snoc [] v zero = ground arith
get_or-snoc [] v (suc j) = ground arith
get_or-snoc (x ∷ xs) v zero = ground arith
get_or-snoc (x ∷ xs) v (suc j) = ground (arith, get_or-snoc xs v j)

lt-or-last : (j n : ℕ) → j < n + 1 → (j < n) ⊎ (j ≡ n)
lt-or-last j n h = elim (Bool-cases (ltb j n)) [
  | inl e ↦ inl (ground arith)
  | inr e ↦ inr (ground arith)
]

module _ {ℓ} {A : Type ℓ} where
  take-drop-append :
      (n k : ℕ) (xs ys : List A)
      → k + n ≤ length xs
      → take n (drop k (xs ++ ys)) ≡ take n (drop k xs)
  take-drop-append zero k xs ys h = refl
  take-drop-append (suc n) k [] ys h = absurd (omega arith)
  take-drop-append (suc n) zero (x ∷ xs) ys h =
      ap (λ l. x ∷ l) (take-drop-append n 0 xs ys (omega arith))
  take-drop-append (suc n) (suc k) (x ∷ xs) ys h = take-drop-append (suc n) k xs ys (omega arith)

  pub take-drop-length :
      (xs ys : List A) (n : ℕ) → n ≡ length ys → take n (drop (length xs) (xs ++ ys)) ≡ ys
  take-drop-length [] [] zero h = refl
  take-drop-length [] [] (suc n) h = absurd (omega arith)
  take-drop-length [] (y ∷ ys) zero h = absurd (omega arith)
  take-drop-length [] (y ∷ ys) (suc n) h = ap (λ l. y ∷ l) (take-drop-length [] ys n (omega arith))
  take-drop-length (x ∷ xs) ys n h = take-drop-length xs ys n h

  pub get_or-append_length :
      (xs : List A) (x : A) (ys : List A) (d : A) → get_or (xs ++ x ∷ ys) (length xs) d ≡ x
  get_or-append_length [] x ys d = refl
  get_or-append_length (y ∷ xs) x ys d = get_or-append_length xs x ys d

  pub get_or-append_left :
      (xs ys : List A) (i : ℕ) (d : A) → i < length xs → get_or (xs ++ ys) i d ≡ get_or xs i d
  get_or-append_left [] ys i d h = absurd (omega arith)
  get_or-append_left (x ∷ xs) ys zero d h = refl
  get_or-append_left (x ∷ xs) ys (suc i) d h = get_or-append_left xs ys i d (omega arith)

module _ {ℓ} {A : Type ℓ} where
  -- The pieces stand in the arena one after the other, with the table of where each begins.
  pub record IsArena (pieces : List (List A)) (arena : List A) (off : List ℕ) : Type ℓ where
    entries : length off ≡ length pieces + 1
    last : get_or off (length pieces) 0 ≡ length arena
    within : (j : ℕ) → get_or off j 0 ≤ length arena
    rising : (j : ℕ) → j < length pieces → get_or off j 0 ≤ get_or off (j + 1) 0
    pub reads : (j : ℕ) → j < length pieces → arena_at arena off j ≡ get_or pieces j []

  pub start-IsArena : IsArena [] [] (0 ∷ [])
  start-IsArena = record {
    entries = omega arith;
    last = refl;
    within = λ j. zeros j;
    rising = λ j h. absurd (omega arith);
    reads = λ j h. absurd (omega arith);
  }
    where
      zeros : (j : ℕ) → get_or (0 ∷ []) j 0 ≤ 0
      zeros zero = omega arith
      zeros (suc j) = omega arith

  module _ (pieces : List (List A)) (arena : List A) (off : List ℕ) (h : IsArena pieces arena off)
      (x : List A) where
    private_size : length (arena ++ x) ≡ length arena + length x
    private_size = length-append arena x

    snoc-reads :
        (j : ℕ)
        → (j < length pieces) ⊎ (j ≡ length pieces)
        → arena_at (arena ++ x) (off ++ length (arena ++ x) ∷ []) j ≡ get_or (pieces ++ x ∷ []) j []
    snoc-reads j (inl lt) =
        let old : get_or (off ++ length (arena ++ x) ∷ []) j 0 ≡ get_or off j 0 =
          ground (arith, get_or-snoc off (length (arena ++ x)) j, h.entries) in
        let next : get_or (off ++ length (arena ++ x) ∷ []) (j + 1) 0 ≡ get_or off (j + 1) 0 =
          ground (arith, get_or-snoc off (length (arena ++ x)) (j + 1), h.entries) in
        rw (old, next)
          (take-drop-append (get_or off (j + 1) 0 - get_or off j 0) (get_or off j 0) arena x
              (omega (arith, h.rising j lt, h.within (j + 1)))
            ∙ h.reads j lt
            ∙ sym (get_or-append_left pieces (x ∷ []) j [] lt))
    snoc-reads j (inr e) =
        let here : get_or (off ++ length (arena ++ x) ∷ []) j 0 ≡ length arena = ground (
          arith,
          get_or-snoc off (length (arena ++ x)) j,
          h.entries,
          h.last,
          ap (λ i. get_or off i 0) e,
        ) in
        let next : get_or (off ++ length (arena ++ x) ∷ []) (j + 1) 0 ≡ length arena + length x =
          ground (arith, get_or-snoc off (length (arena ++ x)) (j + 1), h.entries, private_size) in
        rw (here, next)
          (take-drop-length arena x (length arena + length x - length arena) (omega arith)
            ∙ sym
                (ap (λ i. get_or (pieces ++ x ∷ []) i []) e ∙ get_or-append_length pieces x [] []))

    snoc-IsArena : IsArena (pieces ++ x ∷ []) (arena ++ x) (off ++ length (arena ++ x) ∷ [])
    snoc-IsArena =
        let one_more : length (pieces ++ x ∷ []) ≡ length pieces + 1 =
          length-append pieces (x ∷ []) in
        record {
          entries =
              omega (arith, one_more, h.entries, length-append off (length (arena ++ x) ∷ []));
          last =
              ap (λ i. get_or (off ++ length (arena ++ x) ∷ []) i 0) (one_more ∙ sym h.entries)
              ∙ get_or-append_length off (length (arena ++ x)) [] 0;
          within = λ j.
              ground (arith, get_or-snoc off (length (arena ++ x)) j, private_size, h.within j);
          rising = λ j lt. ground (
            arith,
            get_or-snoc off (length (arena ++ x)) j,
            get_or-snoc off (length (arena ++ x)) (j + 1),
            private_size,
            h.entries,
            h.rising j,
            h.within j,
            one_more,
          );
          reads = λ j lt. snoc-reads j (lt-or-last j (length pieces) (omega (arith, one_more)));
        }

-- Both arenas of a shard.
pub record IsShard (rows : List KeyedRow) (s : AnchorShard) : Type 0 where
  pub keys : IsArena (map (λ keyed. keyed.0) rows) s.keys s.key_off
  pub ancs : IsArena (map (λ keyed. keyed.1) rows) s.ancs s.anc_off

pub fill_shard-IsShard :
    (before rows : List KeyedRow) (s : AnchorShard)
    → IsShard before s
    → IsShard (before ++ rows) (fill_shard rows s)
unfolding fill_shard
fill_shard-IsShard before [] s h = rw append-nil h
fill_shard-IsShard before (keyed ∷ rows) s h =
    let next : AnchorShard = record {
      keys = s.keys ++ keyed.0;
      key_off = s.key_off ++ length (s.keys ++ keyed.0) ∷ [];
      ancs = s.ancs ++ keyed.1;
      anc_off = s.anc_off ++ length (s.ancs ++ keyed.1) ∷ [];
    } in
    let keys_ok = snoc-IsArena (map (λ k. k.0) before) s.keys s.key_off h.keys keyed.0 in
    let ancs_ok = snoc-IsArena (map (λ k. k.1) before) s.ancs s.anc_off h.ancs keyed.1 in
    subst (λ done. IsShard done (fill_shard rows next)) (append_assoc before (keyed ∷ []) rows)
      (fill_shard-IsShard (before ++ keyed ∷ []) rows next (record {
        keys =
            subst (λ l. IsArena l next.keys next.key_off) (sym (map-append _ before (keyed ∷ [])))
              keys_ok;
        ancs =
            subst (λ l. IsArena l next.ancs next.anc_off) (sym (map-append _ before (keyed ∷ [])))
              ancs_ok;
      }))
