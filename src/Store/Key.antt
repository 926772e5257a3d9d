-- ===== src/Store/Key.antt =====
-- The keys of pkg/store/key.go and the strings that stand for them. A text is the list of its bytes.
use mathlib.Core.List.{append_assoc}
use canal.Prelude.{
  ℕ, ◌≡◌, ◌≢◌, refl, sym, subst, ◌∙◌, ◌↔◌, Bool, true, false, List, [], ◌∷◌, ◌++◌, arith, ◌==◌,
  ◌&&◌, if◌then◌else◌,
}

pub record Key : Type 0 where
  pub tenant : List ℕ
  pub space : List ℕ
  pub parts : List (List ℕ)

-- One byte of escapeKeyPart: `%` (37) is written %25, and `/` (47) is written %2F.
unfoldable pub escape_byte : ℕ → List ℕ
escape_byte c = if c == 37 then 37 ∷ 50 ∷ 53 ∷ [] else if c == 47 then 37 ∷ 50 ∷ 70 ∷ [] else c ∷ []

unfoldable pub escape_key_part : List ℕ → List ℕ
unfolding escape_byte
escape_key_part [] = []
escape_key_part (c ∷ s) = escape_byte c ++ escape_key_part s

unfoldable pub slashed : List (List ℕ) → List ℕ
unfolding escape_key_part
slashed [] = []
slashed (p ∷ ps) = 47 ∷ (escape_key_part p ++ slashed ps)

unfoldable pub string : Key → List ℕ
unfolding escape_key_part slashed
string k = escape_key_part k.tenant ++ (47 ∷ (escape_key_part k.space ++ slashed k.parts))

escape_byte-inj :
    (c d : ℕ) (x y : List ℕ) → escape_byte c ++ x ≡ escape_byte d ++ y → (c ≡ d) × (x ≡ y)
unfolding escape_byte
escape_byte-inj c d x y h = ground (arith, h)

-- What follows a part: nothing, or a slash.
abbrev Ends : List ℕ → Type 0
Ends [] = Unit
Ends (c ∷ s) = c ≡ 47

escape_byte-head : (c : ℕ) (x r : List ℕ) → Ends r → escape_byte c ++ x ≢ r
unfolding escape_byte
escape_byte-head c x [] e = λ h. ground (arith, h)
escape_byte-head c x (d ∷ r) e = λ h. ground (arith, h, e)

escape_key_part-inj :
    (p q r s : List ℕ)
    → Ends r
    → Ends s
    → escape_key_part p ++ r ≡ escape_key_part q ++ s
    → (p ≡ q) × (r ≡ s)
unfolding escape_key_part
escape_key_part-inj [] [] r s e f h = (refl, h)
escape_key_part-inj [] (d ∷ q) r s e f h = absurd (
    escape_byte-head d (escape_key_part q ++ s) r e
      (sym (append_assoc (escape_byte d) (escape_key_part q) s) ∙ sym h))
escape_key_part-inj (c ∷ p) [] r s e f h = absurd (
    escape_byte-head c (escape_key_part p ++ r) s f
      (sym (append_assoc (escape_byte c) (escape_key_part p) r) ∙ h))
escape_key_part-inj (c ∷ p) (d ∷ q) r s e f h =
    let (same, rest) = escape_byte-inj c d (escape_key_part p ++ r) (escape_key_part q ++ s) (
      sym (append_assoc (escape_byte c) (escape_key_part p) r)
      ∙ h
      ∙ append_assoc (escape_byte d) (escape_key_part q) s) in
    let (tail, ends) = escape_key_part-inj p q r s e f rest in (cc (same, tail), ends)

slashed-Ends : (ps : List (List ℕ)) → Ends (slashed ps)
unfolding slashed
slashed-Ends [] = tt
slashed-Ends (p ∷ ps) = refl

slashed-inj : (ps qs : List (List ℕ)) → slashed ps ≡ slashed qs → ps ≡ qs
unfolding slashed
slashed-inj [] [] h = refl
slashed-inj [] (q ∷ qs) h = absurd (cc h)
slashed-inj (p ∷ ps) [] h = absurd (cc h)
slashed-inj (p ∷ ps) (q ∷ qs) h =
    let rest : escape_key_part p ++ slashed ps ≡ escape_key_part q ++ slashed qs = cc h in
    let (same, tail) =
      escape_key_part-inj p q (slashed ps) (slashed qs) (slashed-Ends ps) (slashed-Ends qs) rest in
    cc (same, slashed-inj ps qs tail)

-- Two keys that are written as the same string are the same key: no part, whatever bytes it holds,
-- can run into the next.
pub string-inj : (k l : Key) → string k ≡ string l → k ≡ l
unfolding string
string-inj k l h =
    let (t, rest) = escape_key_part-inj k.tenant l.tenant _ _ refl refl h in
    let after : escape_key_part k.space ++ slashed k.parts
        ≡ escape_key_part l.space ++ slashed l.parts =
      cc rest in
    let (s, tail) =
      escape_key_part-inj k.space l.space (slashed k.parts) (slashed l.parts) (slashed-Ends k.parts)
        (slashed-Ends l.parts) after in
    cc (t, s, slashed-inj k.parts l.parts tail)

abbrev pub same_text : List ℕ → List ℕ → Bool
same_text [] [] = true
same_text [] (d ∷ t) = false
same_text (c ∷ s) [] = false
same_text (c ∷ s) (d ∷ t) = c == d && same_text s t

abbrev pub starts_with : List (List ℕ) → List (List ℕ) → Bool
starts_with ks [] = true
starts_with [] (p ∷ ps) = false
starts_with (k ∷ ks) (p ∷ ps) = same_text k p && starts_with ks ps

-- Key.Prefix: the parts of `p` are the first parts of `k`.
unfoldable pub has_prefix : Key → Key → Bool
has_prefix k p =
    same_text k.tenant p.tenant && same_text k.space p.space && starts_with k.parts p.parts

same_text_eq : (s t : List ℕ) → same_text s t ≡ true → s ≡ t
same_text_eq [] [] h = refl
same_text_eq [] (d ∷ t) h = absurd (cc h)
same_text_eq (c ∷ s) [] h = absurd (cc h)
same_text_eq (c ∷ s) (d ∷ t) h =
    let e : c ≡ d = ground arith in
    let r : same_text s t ≡ true = ground arith in cc (e, same_text_eq s t r)

same_text_refl : (s : List ℕ) → same_text s s ≡ true
same_text_refl [] = refl
same_text_refl (c ∷ s) = ground (arith, same_text_refl s)

starts_with-rest :
    (ks ps : List (List ℕ)) → starts_with ks ps ≡ true → (rest : List (List ℕ)) × (ks ≡ ps ++ rest)
starts_with-rest ks [] h = (ks, refl)
starts_with-rest [] (p ∷ ps) h = absurd (cc h)
starts_with-rest (k ∷ ks) (p ∷ ps) h =
    let a : same_text k p ≡ true = ground arith in
    let b : starts_with ks ps ≡ true = ground arith in
    let (rest, e) = starts_with-rest ks ps b in (rest, cc (same_text_eq k p a, e))

starts_with-append : (ps rest : List (List ℕ)) → starts_with (ps ++ rest) ps ≡ true
starts_with-append [] rest = refl
starts_with-append (p ∷ ps) rest = rw (same_text_refl p) (starts_with-append ps rest)

-- Prefix says whether one key is the other with more parts behind its own, part by part.
pub has_prefix_iff :
    (k p : Key)
    → (has_prefix k p ≡ true)
      ↔ ((rest : List (List ℕ)) × (k ≡ record p { parts = p.parts ++ rest }))
unfolding has_prefix
has_prefix_iff k p = (
  λ h.
      let a : same_text k.tenant p.tenant ≡ true = ground arith in
      let b : same_text k.space p.space ≡ true = ground arith in
      let c : starts_with k.parts p.parts ≡ true = ground arith in
      let (rest, e) = starts_with-rest k.parts p.parts c in
      (rest, cc (same_text_eq k.tenant p.tenant a, same_text_eq k.space p.space b, e)),
  λ (rest, e).
      subst (λ x. has_prefix x p ≡ true) (sym e)
        (rw (same_text_refl p.tenant, same_text_refl p.space) (starts_with-append p.parts rest)),
)
