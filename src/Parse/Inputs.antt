-- ===== src/Parse/Inputs.antt =====
-- The messages, rows and ids that `parse` (parser.go) puts together.
use tipping.Base.{
  ℕ, zero, suc, ◌<◌, ◌≡◌, refl, ap, Bool, List, [], ◌∷◌, ◌++◌, some, length, map, get_or, get_elem?,
  get_elem?-lt, Bytes, arith, All, AreBytes,
}
use tipping.Dict.{Dict}
use tipping.Token.{Token}
use tipping.Split.Lossless.{text_of}
use tipping.Dedup.Rows.{LeadTo}
use tipping.Intern.Ids.{HasIds, AllHaveIds}
use tipping.TokenRecord.{TokenRecord}
use tipping.Graph.{AnchorScratch}
use tipping.Retokenize.Size.{HasBytes}
use tipping.Parse.{keyed_rows}

-- The message of a row.
pub LeadTo-below :
    (unique : List Bytes) (rows : List ℕ) (messages : List Bytes)
    → LeadTo unique rows messages
    → All (λ r. r < length unique) rows
LeadTo-below unique [] messages h = tt
LeadTo-below unique (r ∷ rows) [] h = absurd h
LeadTo-below unique (r ∷ rows) (m ∷ messages) (e, h) =
    (get_elem?-lt unique r e, LeadTo-below unique rows messages h)

pub LeadTo-at :
    (unique : List Bytes) (rows : List ℕ) (messages : List Bytes) (j : ℕ)
    → LeadTo unique rows messages
    → j < length messages
    → get_elem? unique (get_or rows j 0) ≡ some (get_or messages j [])
LeadTo-at unique [] [] j h lt = absurd (omega arith)
LeadTo-at unique [] (m ∷ messages) j h lt = absurd h
LeadTo-at unique (r ∷ rows) [] j h lt = absurd h
LeadTo-at unique (r ∷ rows) (m ∷ messages) zero (e, h) lt = e
LeadTo-at unique (r ∷ rows) (m ∷ messages) (suc j) (e, h) lt =
    LeadTo-at unique rows messages j h (omega arith)

pub All-at :
    (messages : List Bytes) (j : ℕ)
    → All AreBytes messages
    → j < length messages
    → AreBytes (get_or messages j [])
All-at [] j h lt = absurd (omega arith)
All-at (m ∷ messages) zero (h, hs) lt = h
All-at (m ∷ messages) (suc j) (h, hs) lt = All-at messages j hs (omega arith)

pub get_or-mapped :
    {A B : Type 0} (f : A → List B) (xs : List A) (r : ℕ) (x : A)
    → get_elem? xs r ≡ some x
    → get_or (map f xs) r [] ≡ f x
get_or-mapped f [] r x e = absurd (cc)
get_or-mapped f (y ∷ xs) zero x e = let same : y ≡ x = cc in ap f same
get_or-mapped f (y ∷ xs) (suc r) x e = get_or-mapped f xs r x e

pub get_elem?-mapped :
    {A B : Type 0} (f : A → B) (xs : List A) (r : ℕ) (x : A)
    → get_elem? xs r ≡ some x
    → get_elem? (map f xs) r ≡ some (f x)
get_elem?-mapped f [] r x e = absurd (cc)
get_elem?-mapped f (y ∷ xs) zero x e = let same : y ≡ x = cc in ap (λ z. some (f z)) same
get_elem?-mapped f (y ∷ xs) (suc r) x e = get_elem?-mapped f xs r x e

length-HasIds :
    (d : Dict ℕ) (toks : List Token) (ids : List ℕ) → HasIds d toks ids → length ids ≡ length toks
length-HasIds d [] [] h = refl
length-HasIds d [] (i ∷ ids) h = absurd h
length-HasIds d (t ∷ toks) [] h = absurd h
length-HasIds d (t ∷ toks) (i ∷ ids) (e, h) = ap suc (length-HasIds d toks ids h)

pub AllHaveIds-aligned :
    (d : Dict ℕ) (rows : List (List Token)) (rids : List (List ℕ)) (r : ℕ)
    → AllHaveIds d rows rids
    → length (get_or rids r []) ≡ length (get_or rows r [])
AllHaveIds-aligned d [] [] r h = refl
AllHaveIds-aligned d [] (ids ∷ rids) r h = absurd h
AllHaveIds-aligned d (toks ∷ rows) [] r h = absurd h
AllHaveIds-aligned d (toks ∷ rows) (ids ∷ rids) zero (h, hs) = length-HasIds d toks ids h
AllHaveIds-aligned d (toks ∷ rows) (ids ∷ rids) (suc r) (h, hs) =
    AllHaveIds-aligned d rows rids r hs

pub length-keyed_rows :
    (exceeds : ℕ → ℕ → Bool) (idep : TokenRecord) (d : Dict ℕ) (rows : List (List Token))
    (rids : List (List ℕ)) (scratch : AnchorScratch)
    → AllHaveIds d rows rids
    → length (keyed_rows exceeds idep rows rids scratch) ≡ length rows
unfolding keyed_rows
length-keyed_rows exceeds idep d [] [] scratch h = refl
length-keyed_rows exceeds idep d [] (ids ∷ rids) scratch h = absurd h
length-keyed_rows exceeds idep d (toks ∷ rows) [] scratch h = absurd h
length-keyed_rows exceeds idep d (toks ∷ rows) (ids ∷ rids) scratch (h, hs) =
    ap suc (length-keyed_rows exceeds idep d rows rids _ hs)

All-append_left : (xs ys : Bytes) → AreBytes (xs ++ ys) → AreBytes xs × AreBytes ys
All-append_left [] ys h = (tt, h)
All-append_left (x ∷ xs) ys (h, hs) = let (a, b) = All-append_left xs ys hs in ((h, a), b)

pub HasBytes-text_of : (tokens : List Token) → AreBytes (text_of tokens) → HasBytes tokens
HasBytes-text_of [] h = tt
HasBytes-text_of (tok ∷ tokens) h =
    let (a, b) = All-append_left tok.slice (text_of tokens) h in (a, HasBytes-text_of tokens b)
