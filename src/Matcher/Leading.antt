-- ===== src/Matcher/Leading.antt =====
-- A message that begins with the literal behind a leading placeholder.
use tipping.Base.{
  ℕ, ◌≡◌, sym, ap, ◌∙◌, append_assoc, Bool, true, List, [], ◌∷◌, ◌++◌, none, some, Bytes, arith,
}
use tipping.Strings.{has_prefix, index, split}
use tipping.Strings.Index.{has_prefix-append}
use tipping.Template.{placeholder}
use tipping.Codec.{decode_template, interleave}
use tipping.Matcher.{compile_template, match_loop, match_parts, match_internal, match_template}

index-at_start : (s needle : Bytes) → has_prefix s needle ≡ true → index s needle ≡ some 0
unfolding index
index-at_start [] needle h = rw h
index-at_start (b ∷ s) needle h = rw h

match_loop-leading :
    (capture : Bool) (msg : Bytes) (b : ℕ) (next q : Bytes) (parts args : List Bytes)
    → has_prefix msg (b ∷ next) ≡ true
    → match_loop capture msg 0 ((b ∷ next) ∷ q ∷ parts) args ≡ none
unfolding match_loop
match_loop-leading capture msg b next q parts args h =
    rw (index-at_start msg (b ∷ next) h, match_loop)

match_parts-leading :
    (msg : Bytes) (b : ℕ) (next q : Bytes) (parts : List Bytes)
    → has_prefix msg (b ∷ next) ≡ true
    → match_parts true msg ([] ∷ (b ∷ next) ∷ q ∷ parts) ≡ none
unfolding match_parts
match_parts-leading msg b next q parts h =
    ground (arith, match_loop-leading true msg b next q parts [] h)

-- The text that such a template gives for two arguments, of which the first begins with the
-- literal.
text_for : Bytes → Bytes → Bytes → Bytes → Bytes
text_for literal q a a' = literal ++ (a ++ (literal ++ (a' ++ (q ++ []))))

decode_template-text_for :
    (tmpl : Bytes) (b : ℕ) (next q a a' : Bytes)
    → split tmpl placeholder ≡ [] ∷ (b ∷ next) ∷ q ∷ []
    → decode_template tmpl (((b ∷ next) ++ a) ∷ a' ∷ []) ≡ some (text_for (b ∷ next) q a a')
unfolding decode_template interleave text_for
decode_template-text_for tmpl b next q a a' e =
    rw (e, decode_template) (ap some (append_assoc (b ∷ next) a ((b ∷ next) ++ (a' ++ (q ++ [])))))

match_parts-text_for :
    (b : ℕ) (next q a a' : Bytes)
    → match_parts true (text_for (b ∷ next) q a a') ([] ∷ (b ∷ next) ∷ q ∷ []) ≡ none
unfolding text_for
match_parts-text_for b next q a a' =
    match_parts-leading _ b next q []
      (has_prefix-append (b ∷ next) (a ++ ((b ∷ next) ++ (a' ++ (q ++ [])))))

-- match rejects a message that decodes from the template and two arguments, where the template
-- begins with a placeholder, has one literal and one more placeholder, and the first argument
-- begins with the literal.
pub match_template-leading :
    (id : ℕ) (tmpl msg : Bytes) (b : ℕ) (next q a a' : Bytes)
    → split tmpl placeholder ≡ [] ∷ (b ∷ next) ∷ q ∷ []
    → decode_template tmpl (((b ∷ next) ++ a) ∷ a' ∷ []) ≡ some msg
    → match_template (compile_template id tmpl) msg ≡ none
unfolding match_template match_internal compile_template
match_template-leading id tmpl msg b next q a a' e h =
    let same : some msg ≡ some (text_for (b ∷ next) q a a') =
      sym h ∙ decode_template-text_for tmpl b next q a a' e in
    rw e (some_parts same)
  where
    some_parts :
        some msg ≡ some (text_for (b ∷ next) q a a')
        → match_parts true msg ([] ∷ (b ∷ next) ∷ q ∷ []) ≡ none
    some_parts s =
        let text : msg ≡ text_for (b ∷ next) q a a' = cc in
        rw text (match_parts-text_for b next q a a')
