-- ===== src/Strings/Index.antt =====
-- What `Index`, `HasPrefix` and `HasSuffix` say of a text.
use tipping.Base.{
  ℕ, zero, suc, ◌+◌, ◌-◌, ◌≤◌, ◌<◌, ◌≡◌, refl, sym, ap, ◌∙◌, true, false, [], ◌∷◌, ◌++◌, none, some,
  length, take, drop, Bytes, bytes_eq→eq, arith, take-append-drop, drop-nil,
}
use tipping.Strings.{has_prefix, has_suffix, index}

pub has_prefix→eq : (s p : Bytes) → has_prefix s p ≡ true → s ≡ p ++ drop (length p) s
unfolding has_prefix
has_prefix→eq s [] h = refl
has_prefix→eq [] (p ∷ ps) h = cc
has_prefix→eq (b ∷ s) (p ∷ ps) h = ground (arith, has_prefix→eq s ps)

pub has_prefix-append : (p s : Bytes) → has_prefix (p ++ s) p ≡ true
unfolding has_prefix
has_prefix-append [] s = refl
has_prefix-append (b ∷ p) s = ground (arith, has_prefix-append p s)

module _ (b : ℕ) (s needle : Bytes) where
  index-zero : index (b ∷ s) needle ≡ some 0 → has_prefix (b ∷ s) needle ≡ true
  unfolding index
  index-zero h = ground arith

  index-suc :
      (i : ℕ)
      → index (b ∷ s) needle ≡ some (suc i)
      → (has_prefix (b ∷ s) needle ≡ false) × (index s needle ≡ some i)
  unfolding index
  index-suc i h = ground arith

  index-cons-none :
      index (b ∷ s) needle ≡ none → (has_prefix (b ∷ s) needle ≡ false) × (index s needle ≡ none)
  unfolding index
  index-cons-none h = ground arith

index_of_nil : (needle : Bytes) (i : ℕ) → index [] needle ≡ some i → (i ≡ 0) × (length needle ≡ 0)
unfolding index has_prefix
index_of_nil [] i h = ground arith
index_of_nil (p ∷ ps) i h = ground arith

-- The needle stands where `index` says.
pub index→eq :
    (s needle : Bytes) (i : ℕ)
    → index s needle ≡ some i
    → s ≡ take i s ++ (needle ++ drop (i + length needle) s)
index→eq [] [] zero h = refl
index→eq [] [] (suc i) h = absurd (ground (arith, index_of_nil [] (suc i)))
index→eq [] (p ∷ ps) i h = absurd (ground (arith, index_of_nil (p ∷ ps) i))
index→eq (b ∷ s) needle zero h =
    let e : 0 + length needle ≡ length needle = omega arith in
    rw e (has_prefix→eq (b ∷ s) needle (index-zero b s needle h))
index→eq (b ∷ s) needle (suc i) h =
    let e : suc i + length needle ≡ suc (i + length needle) = omega arith in
    rw e (ap (λ r. b ∷ r) (index→eq s needle i (index-suc b s needle i h).1))

pub has_prefix-length : (s p : Bytes) → has_prefix s p ≡ true → length p ≤ length s
unfolding has_prefix
has_prefix-length s [] h = omega arith
has_prefix-length [] (p ∷ ps) h = cc
has_prefix-length (b ∷ s) (p ∷ ps) h = ground (arith, has_prefix-length s ps)

pub index-le : (s needle : Bytes) (i : ℕ) → index s needle ≡ some i → i + length needle ≤ length s
index-le [] needle i h = unfold index in ground (arith, has_prefix-length [] needle)
index-le (b ∷ s) needle zero h =
    omega (arith, has_prefix-length (b ∷ s) needle (index-zero b s needle h))
index-le (b ∷ s) needle (suc i) h = omega (arith, index-le s needle i (index-suc b s needle i h).1)

-- Nothing before it begins an occurrence.
pub index-first :
    (s needle : Bytes) (i j : ℕ)
    → index s needle ≡ some i
    → j < i
    → has_prefix (drop j s) needle ≡ false
index-first s needle zero j h k = absurd (omega arith)
index-first [] needle (suc i) j h k = absurd (omega (arith, index-le [] needle (suc i) h))
index-first (b ∷ s) needle (suc i) zero h k = (index-suc b s needle i h).0
index-first (b ∷ s) needle (suc i) (suc j) h k =
    index-first s needle i j (index-suc b s needle i h).1 (omega arith)

-- With no index the needle stands nowhere.
pub index-none :
    (s needle : Bytes) (j : ℕ) → index s needle ≡ none → has_prefix (drop j s) needle ≡ false
index-none [] needle j h = rw (drop-nil j) (unfold index in ground arith)
index-none (b ∷ s) needle zero h = (index-cons-none b s needle h).0
index-none (b ∷ s) needle (suc j) h = index-none s needle j (index-cons-none b s needle h).1

pub has_suffix→eq :
    (s suffix : Bytes)
    → has_suffix s suffix ≡ true
    → (s ≡ take (length s - length suffix) s ++ suffix) × (length suffix ≤ length s)
unfolding has_suffix
has_suffix→eq s suffix h =
    let n = length s - length suffix in
    let e : drop n s ≡ suffix = bytes_eq→eq _ _ (ground arith) in
    (sym (ap (λ r. take n s ++ r) (sym e) ∙ take-append-drop n s), ground arith)

pub index-has_prefix :
    (s needle : Bytes) (i : ℕ) → index s needle ≡ some i → has_prefix (drop i s) needle ≡ true
index-has_prefix [] needle i h = rw drop-nil (unfold index in ground arith)
index-has_prefix (b ∷ s) needle zero h = index-zero b s needle h
index-has_prefix (b ∷ s) needle (suc i) h = index-has_prefix s needle i (index-suc b s needle i h).1

pub take-has_prefix : (s p : Bytes) → has_prefix s p ≡ true → take (length p) s ≡ p
unfolding has_prefix
take-has_prefix s [] h = refl
take-has_prefix [] (c ∷ p) h = cc
take-has_prefix (b ∷ s) (c ∷ p) h = ground (arith, take-has_prefix s p)
