-- ===== src/Codec/Tables.antt =====
-- The tables of the codec: maps with text keys, and the ids of templates.
use tipping.Base.{
  get_elem?-append_left, get_elem?-append_length, ℕ, ◌+◌, ◌≡◌, refl, sym, ◌∙◌, List, [], ◌∷◌, ◌++◌,
  some, length, Bytes, arith, Option-cases, Bool-cases, inl, inr, append_assoc, bytes_eq,
  bytes_eq→eq, get_elem?, length-append, subst,
}
use tipping.Codec.{Builder, ensure_template_id, number_templates}
use tipping.Dict.{lookup_new, lookup_other, lookup_self, Dict, lookup}

-- Every id in the table is the place of its template.
abbrev pub IdsSound : Dict ℕ → List Bytes → Type 0
IdsSound ids templates =
    (t : Bytes) (id : ℕ) → lookup t ids ≡ some id → get_elem? templates id ≡ some t

IdsSound-cons :
    (ids : Dict ℕ) (t : Bytes) (n : ℕ) (templates : List Bytes)
    → get_elem? templates n ≡ some t
    → IdsSound ids templates
    → IdsSound ((t, n) ∷ ids) templates
IdsSound-cons ids t n templates h k u id e = elim (Bool-cases (bytes_eq t u)) [
  | inl s ↦
      let same_key = bytes_eq→eq t u s in
      let found : lookup u ((t, n) ∷ ids) ≡ some n = rw (← same_key) (lookup_self t n ids) in
      let i : n ≡ id = cc in rw (← i, ← same_key) h
  | inr s ↦ k u id (sym (lookup_other t u n ids s) ∙ e)
]

number_templates-IdsSound :
    (ts before : List Bytes) (n : ℕ) (ids : Dict ℕ)
    → n ≡ length before
    → IdsSound ids (before ++ ts)
    → IdsSound (number_templates ts n ids) (before ++ ts)
unfolding number_templates
number_templates-IdsSound [] before n ids e h = h
number_templates-IdsSound (t ∷ ts) before n ids e h =
    let assoc : (before ++ t ∷ []) ++ ts ≡ before ++ t ∷ ts = append_assoc before (t ∷ []) ts in
    let here : get_elem? (before ++ t ∷ ts) n ≡ some t =
      rw e (get_elem?-append_length before t ts) in
    subst (λ l. IdsSound (number_templates ts (n + 1) ((t, n) ∷ ids)) l) assoc
      (number_templates-IdsSound ts (before ++ t ∷ []) (n + 1) ((t, n) ∷ ids)
        (omega (arith, length-append before (t ∷ [])))
        (subst (λ l. IdsSound ((t, n) ∷ ids) l) (sym assoc) (IdsSound-cons ids t n _ here h)))

pub numbered-IdsSound : (ts : List Bytes) → IdsSound (number_templates ts 0 []) ts
numbered-IdsSound ts =
    number_templates-IdsSound ts [] 0 [] refl (λ t id e. absurd (unfold lookup in cc))

-- What `ensureTemplateID` leaves: the template has the id, old ids stay, and the entries too.
pub record IsEnsured (t : Bytes) (b : Builder) (r : ℕ × Builder) : Type 0 where
  pub found : lookup t r.1.template_ids ≡ some r.0
  pub sound : IdsSound r.1.template_ids r.1.templates
  pub keeps :
      (k : Bytes) (i : ℕ) → lookup k b.template_ids ≡ some i → lookup k r.1.template_ids ≡ some i
  pub same_entries : r.1.entries ≡ b.entries

pub ensure_template_id-IsEnsured :
    (t : Bytes) (b : Builder)
    → IdsSound b.template_ids b.templates
    → IsEnsured t b (ensure_template_id t b)
unfolding ensure_template_id
ensure_template_id-IsEnsured t b h = elim (Option-cases (lookup t b.template_ids)) [
  | inl e ↦
      rw (e, ensure_template_id)
        (record {
          found = lookup_self t (length b.templates) b.template_ids;
          sound =
              IdsSound-cons b.template_ids t (length b.templates) _
                (get_elem?-append_length b.templates t [])
                (λ u id f. get_elem?-append_left b.templates (t ∷ []) id (h u id f));
          keeps = λ k i f. lookup_new t k (length b.templates) b.template_ids e f;
          same_entries = refl;
        })
  | inr (id, e) ↦
      rw (e, ensure_template_id)
        (record { found = e; sound = h; keeps = λ k i f. f; same_entries = refl })
]
