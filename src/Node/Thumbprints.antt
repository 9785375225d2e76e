-- ===== src/Node/Thumbprints.antt =====
-- The spellings of a certificate's thumbprint (`_normalize_thumbprint` of
-- src/sdn_controller/core/entities/node.py).
use mathlib.Core.Path.{subst}
use mathlib.Core.List.{reverse, reverse-append, reverse-reverse}
use nervum.Prelude.{
  ℕ, ◌≤◌, ◌≡◌, ◌∙◌, refl, sym, ap, ◌↔◌, ◌⊎◌, ◌+◌, Bool, true, not, [], ◌∷◌, ◌++◌, arith, all,
  is_space, Bool-cases, inl, inr,
}
use nervum.Errors.{ok}
use nervum.Node.{Text, is_hex, lstrip, strip, lower, lower_code, normalize_thumbprint}
use nervum.Node.Lifecycle.{IsThumbprint, normalize_thumbprint_canonical}

-- The first text is the second one, but for capitals among its letters.
abbrev pub Spells : Text → Text → Type 0
Spells [] [] = Unit
Spells [] (_ ∷ _) = ⊥
Spells (_ ∷ _) [] = ⊥
Spells (c ∷ t) (d ∷ s) = ((c ≡ d) ⊎ ((65 ≤ c) × (c ≤ 90) × (c + 32 ≡ d))) × Spells t s

-- The text is a spelling of the canonical one, between white space.
abbrev pub IsPadded : Text → Text → Type 0
IsPadded t s =
    (before word after : Text) × (t ≡ before ++ (word ++ after))
    × (all is_space before ≡ true)
    × (all is_space after ≡ true)
    × Spells word s

abbrev is_plain : ℕ → Bool
is_plain c = not (is_space c)

lstrip_parts : (t : Text) → (pad : Text) × (t ≡ pad ++ lstrip t) × (all is_space pad ≡ true)
unfolding lstrip
lstrip_parts [] = ([], refl, refl)
lstrip_parts (c ∷ t) = elim (Bool-cases (is_space c)) [
  | inl space ↦
      let (pad, parts, blank) = lstrip_parts t in
      (c ∷ pad, rw space (ap (λ u. c ∷ u) parts), rw (space, blank) refl)
  | inr plain ↦ ([], rw plain refl, refl)
]

all-append : (p : ℕ → Bool) (s t : Text) → all p s ≡ true → all p t ≡ true → all p (s ++ t) ≡ true
all-append p [] t h k = k
all-append p (c ∷ s) t h k = ground (arith, all-append p s t)

all-reverse : (p : ℕ → Bool) (t : Text) → all p t ≡ true → all p (reverse t) ≡ true
all-reverse p [] h = refl
all-reverse p (c ∷ t) h =
    rw (reverse-append (c ∷ []) t)
      (all-append p (reverse t) (c ∷ []) (all-reverse p t (ground arith)) (ground arith))

lstrip_pad : (pad t : Text) → all is_space pad ≡ true → lstrip (pad ++ t) ≡ lstrip t
unfolding lstrip
lstrip_pad [] t h = refl
lstrip_pad (c ∷ pad) t h = ground (arith, lstrip_pad pad t)

lstrip_word : (c : ℕ) (t : Text) → is_plain c ≡ true → lstrip (c ∷ t) ≡ c ∷ t
unfolding lstrip
lstrip_word c t h = ground arith

lstrip_plain : (t : Text) → all is_plain t ≡ true → lstrip t ≡ t
unfolding lstrip
lstrip_plain [] h = refl
lstrip_plain (c ∷ t) h = lstrip_word c t (ground arith)

-- White space around a word is dropped.
strip_padded :
    (before : Text) (c : ℕ) (word after : Text)
    → all is_space before ≡ true
    → all is_space after ≡ true
    → all is_plain (c ∷ word) ≡ true
    → strip (before ++ ((c ∷ word) ++ after)) ≡ c ∷ word
unfolding strip
strip_padded before c word after b a w =
    ap (λ u. reverse (lstrip (reverse u)))
      (lstrip_pad before ((c ∷ word) ++ after) b ∙ lstrip_word c (word ++ after) (ground arith))
    ∙ ap (λ u. reverse (lstrip u)) (reverse-append (c ∷ word) after)
    ∙ ap reverse (
        lstrip_pad (reverse after) (reverse (c ∷ word)) (all-reverse is_space after a)
        ∙ lstrip_plain (reverse (c ∷ word)) (all-reverse is_plain (c ∷ word) w))
    ∙ reverse-reverse (c ∷ word)

-- Any text is what is left of it after `strip`, between white space.
strip_parts :
    (t : Text)
    → (before after : Text) × (t ≡ before ++ (strip t ++ after))
      × (all is_space before ≡ true)
      × (all is_space after ≡ true)
unfolding strip
strip_parts t =
    let (before, front, b) = lstrip_parts t in
    let (pad, back, a) = lstrip_parts (reverse (lstrip t)) in
    (
      before,
      reverse pad,
      front
          ∙ ap (λ u. before ++ u)
              (sym (reverse-reverse (lstrip t))
                ∙ ap reverse back
                ∙ reverse-append pad (lstrip (reverse (lstrip t)))),
      b,
      all-reverse is_space pad a,
    )

lower-Spells : (t : Text) → Spells t (lower t)
unfolding lower lower_code
lower-Spells [] = tt
lower-Spells (c ∷ t) = (ground arith, lower-Spells t)

Spells-lower : (t s : Text) → Spells t s → all is_hex s ≡ true → lower t ≡ s
unfolding lower lower_code
Spells-lower [] [] w h = refl
Spells-lower [] (d ∷ s) w h = absurd w
Spells-lower (c ∷ t) [] w h = absurd w
Spells-lower (c ∷ t) (d ∷ s) w h =
    let rest = Spells-lower t s w.1 (ground arith) in
    let hex : is_hex d ≡ true = ground arith in
    let head : lower_code c ≡ d = elim w.0 [
      | inl same ↦ ground (arith, same, hex)
      | inr (low, high, shifted) ↦ ground (arith, low, high, shifted)
    ] in
    λ i. head i ∷ rest i

Spells-is_plain : (t s : Text) → Spells t s → all is_hex s ≡ true → all is_plain t ≡ true
Spells-is_plain [] [] w h = refl
Spells-is_plain [] (d ∷ s) w h = absurd w
Spells-is_plain (c ∷ t) [] w h = absurd w
Spells-is_plain (c ∷ t) (d ∷ s) w h =
    let rest = Spells-is_plain t s w.1 (ground arith) in
    let hex : is_hex d ≡ true = ground arith in
    let plain : is_plain c ≡ true = elim w.0 [
      | inl same ↦ ground (arith, same, hex)
      | inr (low, high, shifted) ↦ ground (arith, low, high, shifted)
    ] in
    ground (arith, rest, plain)

accepted_hex : (t s : Text) → lower (strip t) ≡ s → IsThumbprint s → normalize_thumbprint t ≡ ok s
unfolding normalize_thumbprint
accepted_hex t s e h = rw e (ground (arith, h))

accepted_spelling :
    (before word after s : Text)
    → all is_space before ≡ true
    → all is_space after ≡ true
    → Spells word s
    → IsThumbprint s
    → normalize_thumbprint (before ++ (word ++ after)) ≡ ok s
accepted_spelling before [] after [] b a w h = absurd (cc h.0)
accepted_spelling before [] after (d ∷ s) b a w h = absurd w
accepted_spelling before (c ∷ word) after s b a w h =
    accepted_hex (before ++ ((c ∷ word) ++ after)) s
      (ap lower (strip_padded before c word after b a (Spells-is_plain (c ∷ word) s w h.1))
        ∙ Spells-lower (c ∷ word) s w h.1)
      h

returned_lower : (t s : Text) → normalize_thumbprint t ≡ ok s → lower (strip t) ≡ s
unfolding normalize_thumbprint
returned_lower t s h = ground arith

-- `_normalize_thumbprint` returns a text exactly if that is 64 lower-case hexadecimal digits and the
-- argument is, between any white space, a spelling of it with or without capitals.
pub normalize_thumbprint_iff :
    (t s : Text) → (normalize_thumbprint t ≡ ok s) ↔ (IsThumbprint s × IsPadded t s)
normalize_thumbprint_iff t s = (
  λ h.
      let (before, after, parts, b, a) = strip_parts t in
      (
        normalize_thumbprint_canonical t s h,
        (
          before,
          strip t,
          after,
          parts,
          b,
          a,
          subst (Spells (strip t)) (returned_lower t s h) (lower-Spells (strip t)),
        ),
      ),
  λ (canonical, (before, word, after, parts, b, a, w)).
      subst (λ u. normalize_thumbprint u ≡ ok s) (sym parts)
        (accepted_spelling before word after s b a w canonical),
)
