-- ===== src/Inventory/Distinct.antt =====
-- Dicts no two of whose values are alike.
use nervum.Prelude.{
  subst, ◌⊎◌, ◌≡◌, sym, ◌∙◌, String, Bool, false, some, [], ◌∷◌, arith, any, values, Dict, lookup,
  insert, lookup-insert, str_eq, eq_iff, Bool-cases, inl, inr, IsDict, erase, lookup-erase,
  lookup-erase_self,
}

module _ {V : Type 0} (Alike : V → V → Type 0) where
  -- Values that are alike stand under one key.
  abbrev pub Distinct : Dict V → Type 0
  Distinct d =
      (k j : String) (v w : V) → lookup k d ≡ some v → lookup j d ≡ some w → Alike v w → k ≡ j

  -- The value is like none that stands under another key.
  abbrev pub IsUnlike : String → V → Dict V → Type 0
  IsUnlike k v d = (j : String) (w : V) → lookup j d ≡ some w → Alike v w → k ≡ j

  -- What is found under a key after an insertion.
  inserted :
      (k x : String) (v w : V) (d : Dict V)
      → lookup x (insert k v d) ≡ some w
      → ((k ≡ x) × (v ≡ w)) ⊎ (lookup x d ≡ some w)
  inserted k x v w d h = elim (Bool-cases (str_eq k x)) [
    | inl same ↦ inl ((eq_iff k x).0 same, cc (h, same, lookup-insert k x v d))
    | inr other ↦ inr (cc (h, other, lookup-insert k x v d))
  ]

  pub insert-Distinct :
      (k : String) (v : V) (d : Dict V)
      → ((v w : V) → Alike v w → Alike w v)
      → IsUnlike k v d
      → Distinct d
      → Distinct (insert k v d)
  insert-Distinct k v d flip unlike old x y a b ha hb alike = elim (inserted k x v a d ha) [
    | inl (kx, va) ↦ elim (inserted k y v b d hb) [
      | inl (ky, vb) ↦ sym kx ∙ ky
      | inr there ↦ sym kx ∙ unlike y b there (subst (λ z. Alike z b) (sym va) alike)
    ]
    | inr here ↦ elim (inserted k y v b d hb) [
      | inl (ky, vb) ↦ sym (unlike x a here (subst (λ z. Alike z a) (sym vb) (flip a b alike))) ∙ ky
      | inr there ↦ old x y a b here there alike
    ]
  ]

  erased :
      (k x : String) (w : V) (d : Dict V)
      → IsDict d
      → lookup x (erase k d) ≡ some w
      → lookup x d ≡ some w
  erased k x w d dict h = elim (Bool-cases (str_eq k x)) [
    | inl same ↦ let key : k ≡ x = (eq_iff k x).0 same in cc (h, key, lookup-erase_self k d dict)
    | inr other ↦ sym (lookup-erase k x d (λ q. cc ((eq_iff k x).1 q, other))) ∙ h
  ]

  pub erase-Distinct : (k : String) (d : Dict V) → IsDict d → Distinct d → Distinct (erase k d)
  erase-Distinct k d dict old x y a b ha hb alike =
      old x y a b (erased k x a d dict ha) (erased k y b d dict hb) alike

-- Where no value passes a test, what a key finds does not.
pub any-values :
    {V : Type 0} (test : V → Bool) (d : Dict V)
    → any test (values d) ≡ false
    → (k : String) (v : V) → lookup k d ≡ some v
    → test v ≡ false
any-values test [] h k v e = cc e
any-values test ((j, w) ∷ d) h k v e =
    let rest : any test (values d) ≡ false = ground arith in
    ground (arith, any-values test d rest k v)
