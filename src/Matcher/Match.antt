-- ===== src/Matcher/Match.antt =====
-- What a match of `matchInternal` (matcher.go) says of a message, part by part.
use tipping.Base.{
  ℕ, zero, suc, ◌+◌, ◌-◌, ◌<◌, ◌≡◌, ◌≢◌, refl, sym, ap, ◌∙◌, Bool, true, false, List, [], ◌∷◌, ◌++◌,
  none, some, if◌then◌else◌, length, take, drop, Bytes, bytes_eq→eq, arith, Option-cases, inl, inr,
  append_assoc, append-nil, take-append-drop, drop-add,
}
use tipping.Strings.{has_suffix, index}
use tipping.Strings.Index.{index→eq, index-le}
use tipping.Matcher.{push, match_loop}

-- `rest` is, part by part, an argument that is not empty and the part.
abbrev pub IsMatch : Bytes → List Bytes → List Bytes → Type 0
IsMatch rest [] [] = rest ≡ []
IsMatch rest (p ∷ parts) (a ∷ args) =
    (a ≢ []) × (rest' : Bytes) × (rest ≡ a ++ (p ++ rest')) × IsMatch rest' parts args
IsMatch rest parts args = ⊥

-- What the loop has found behind the cursor.
abbrev Found : Bool → Bytes → List Bytes → List Bytes → List Bytes → Type 0
Found capture rest parts args r =
    (new : List Bytes) × (r ≡ (if capture then args ++ new else args)) × IsMatch rest parts new

drop-length : (xs : Bytes) → drop (length xs) xs ≡ []
drop-length [] = refl
drop-length (x ∷ xs) = drop-length xs

extend :
    (capture : Bool) (arg : Bytes) (args new r : List Bytes)
    → r ≡ (if capture then push capture args arg ++ new else push capture args arg)
    → r ≡ (if capture then args ++ (arg ∷ new) else args)
extend true arg args new r h = h ∙ append_assoc args (arg ∷ []) new
extend false arg args new r h = h

none_more : (capture : Bool) (args : List Bytes) → args ≡ (if capture then args ++ [] else args)
none_more true args = sym (append-nil args)
none_more false args = refl

drop-ne-nil : (n : ℕ) (xs : Bytes) → n < length xs → drop n xs ≢ []
drop-ne-nil n [] h e = omega arith
drop-ne-nil zero (x ∷ xs) h e = cc
drop-ne-nil (suc n) (x ∷ xs) h e = drop-ne-nil n xs (omega arith) e

take-ne-nil : (n : ℕ) (xs : Bytes) → 0 < n → xs ≢ [] → take n xs ≢ []
take-ne-nil zero xs h k e = omega arith
take-ne-nil (suc n) [] h k e = k refl
take-ne-nil (suc n) (x ∷ xs) h k e = cc

ends :
    (capture : Bool) (msg : Bytes) (cursor : ℕ) (args r : List Bytes)
    → match_loop capture msg cursor [] args ≡ some r
    → (cursor ≡ length msg) × (r ≡ args)
unfolding match_loop
ends capture msg cursor args r h = ground arith

suffix-drop :
    (s suffix : Bytes) → has_suffix s suffix ≡ true → drop (length s - length suffix) s ≡ suffix
unfolding has_suffix
suffix-drop s suffix h = bytes_eq→eq _ _ (ground arith)

cut_end :
    (suffix msg : Bytes) (cursor : ℕ)
    → has_suffix msg suffix ≡ true
    → cursor < length msg - length suffix
    → drop cursor msg
      ≡ take (length msg - length suffix - cursor) (drop cursor msg) ++ (suffix ++ [])
cut_end suffix msg cursor h k =
    let n = length msg - length suffix - cursor in
    let e : cursor + n ≡ length msg - length suffix = omega arith in
    let rest : drop n (drop cursor msg) ≡ suffix ++ [] =
      sym (drop-add cursor n msg)
      ∙ ap (λ i. drop i msg) e
      ∙ suffix-drop msg suffix h
      ∙ sym (append-nil suffix) in
    sym (take-append-drop n (drop cursor msg)) ∙ ap (λ r. take n (drop cursor msg) ++ r) rest

found-ne-nil :
    (s : Bytes) (b : ℕ) (next : Bytes) (i : ℕ) → index s (b ∷ next) ≡ some (suc i) → s ≢ []
found-ne-nil [] b next i h e = omega (arith, index-le [] (b ∷ next) (suc i) h)
found-ne-nil (c ∷ s) b next i h e = cc

none-some : {r : List Bytes} → none ≡ some r → ⊥
none-some h = cc

-- What the branches of the loop that go on test.
module _ (capture : Bool) (msg : Bytes) (cursor : ℕ) (args r : List Bytes) where
  open_end :
      match_loop capture msg cursor ([] ∷ []) args ≡ some r
      → (cursor < length msg) × (r ≡ push capture args (drop cursor msg))
  unfolding match_loop
  open_end h = ground arith

  module _ (b : ℕ) (next : Bytes) where
    closed_end :
        match_loop capture msg cursor ((b ∷ next) ∷ []) args ≡ some r
        → (has_suffix msg (b ∷ next) ≡ true)
          × (cursor < length msg - length (b ∷ next))
          × (r
              ≡ push capture args
                  (take (length msg - length (b ∷ next) - cursor) (drop cursor msg)))
    unfolding match_loop
    closed_end h = ground arith

    goes_on :
        (q : Bytes) (parts : List Bytes)
        → match_loop capture msg cursor ((b ∷ next) ∷ q ∷ parts) args ≡ some r
        → (i : ℕ) × (index (drop cursor msg) (b ∷ next) ≡ some (suc i))
          × (match_loop capture msg
                (cursor + (suc i + length (b ∷ next)))
                (q ∷ parts)
                (push capture args (take (suc i) (drop cursor msg)))
              ≡ some r)
    unfolding match_loop
    goes_on q parts h = elim (Option-cases (index (drop cursor msg) (b ∷ next))) [
      | inl e ↦
          let stop : match_loop capture msg cursor ((b ∷ next) ∷ q ∷ parts) args ≡ none =
            rw (e, match_loop) in
          absurd (none-some (sym stop ∙ h))
      | inr (zero, e) ↦
          let stop : match_loop capture msg cursor ((b ∷ next) ∷ q ∷ parts) args ≡ none =
            rw (e, match_loop) in
          absurd (none-some (sym stop ∙ h))
      | inr (suc i, e) ↦
          let on : match_loop capture msg cursor ((b ∷ next) ∷ q ∷ parts) args
              ≡ match_loop capture msg (cursor + (suc i + length (b ∷ next))) (q ∷ parts)
                  (push capture args (take (suc i) (drop cursor msg))) =
            rw (e, match_loop) in
          (i, e, sym on ∙ h)
    ]

pub match_loop-Found :
    (capture : Bool) (msg : Bytes) (cursor : ℕ) (parts args r : List Bytes)
    → match_loop capture msg cursor parts args ≡ some r
    → Found capture (drop cursor msg) parts args r
match_loop-Found capture msg cursor [] args r h =
    let e = ends capture msg cursor args r h in
    ([], e.1 ∙ none_more capture args, rw (e.0) (drop-length msg))
match_loop-Found capture msg cursor ([] ∷ []) args r h =
    let e = open_end capture msg cursor args r h in
    (drop cursor msg ∷ [], e.1, (drop-ne-nil cursor msg e.0, [], sym (append-nil _), refl))
match_loop-Found capture msg cursor ((b ∷ next) ∷ []) args r h =
    let e = closed_end capture msg cursor args r b next h in
    (
      take (length msg - length (b ∷ next) - cursor) (drop cursor msg) ∷ [],
      e.2,
      (
        take-ne-nil _ _ (omega (arith, e.1)) (drop-ne-nil cursor msg (omega (arith, e.1))),
        [],
        cut_end (b ∷ next) msg cursor e.0 e.1,
        refl,
      ),
    )
match_loop-Found capture msg cursor ([] ∷ q ∷ parts) args r h = absurd (unfold match_loop in cc)
match_loop-Found capture msg cursor ((b ∷ next) ∷ q ∷ parts) args r h =
    let (i, e, k) = goes_on capture msg cursor args r b next q parts h in
    let n = suc i + length (b ∷ next) in
    let arg = take (suc i) (drop cursor msg) in
    let (new, same, m) =
      match_loop-Found capture msg (cursor + n) (q ∷ parts) (push capture args arg) r k in
    (
      arg ∷ new,
      extend capture arg args new r same,
      (
        take-ne-nil (suc i) (drop cursor msg) (omega arith)
            (found-ne-nil (drop cursor msg) b next i e),
        drop (cursor + n) msg,
        index→eq (drop cursor msg) (b ∷ next) (suc i) e
            ∙ ap (λ r. arg ++ ((b ∷ next) ++ r)) (sym (drop-add cursor n msg)),
        m,
      ),
    )
