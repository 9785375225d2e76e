-- ===== src/Network/Intent.antt =====
-- How `bump_intent` and `set_nodes` of src/sdn_controller/core/entities/network.py record a new
-- revision of the intent.
use mathlib.Core.Path.{subst}
use nervum.Prelude.{
  ℕ, ◌+◌, ◌≡◌, refl, String, true, false, List, arith, is_empty, Bool-cases, inl, inr, sym,
  if◌then◌else◌,
}
use nervum.Errors.{ok, err, validation_error}
use nervum.Network.{
  Network, Canonical, canonical, compute_spec_hash, post_init, bump_intent, set_nodes,
  has_duplicates, validate,
}
use nervum.Network.Validity.{IsValid, validate_iff}

module _ (digest : Canonical → String) where
  -- The stored hash is that of the current spec.
  abbrev pub IsFresh : Network → Type 0
  IsFresh n = n.spec_hash ≡ compute_spec_hash digest n

  -- Replacing the membership of a valid network fails exactly on a list with duplicates. Else the
  -- network is valid with that membership, its intent version is the next one, its update time is the
  -- given one, and its hash is that of the new spec.
  pub set_nodes_revises :
      (ids : List String) (now : ℕ) (n : Network)
      → IsValid n
      → (has_duplicates ids ≡ true → set_nodes digest ids now n ≡ err validation_error)
        × (has_duplicates ids ≡ false
            → (n' : Network) × (set_nodes digest ids now n ≡ ok n')
              × IsValid n'
              × IsFresh n'
              × (n'.node_ids ≡ ids)
              × (n'.intent_version ≡ n.intent_version + 1)
              × (n'.updated_at ≡ now))
  unfolding set_nodes
  set_nodes_revises ids now n v = (
    λ h. ground arith,
    λ h. (
      bump_intent digest now (record n { node_ids = ids }),
      ground arith,
      record {
        named = v.named;
        mtu_low = v.mtu_low;
        mtu_high = v.mtu_high;
        tags = v.tags;
        nodes_distinct = h;
      },
      unfold compute_spec_hash canonical in refl,
      refl,
      refl,
      refl,
    ),
  )

  rehashed :
      (n : Network) → IsValid n → IsValid (record n { spec_hash = compute_spec_hash digest n })
  rehashed n v = record {
    named = v.named;
    mtu_low = v.mtu_low;
    mtu_high = v.mtu_high;
    tags = v.tags;
    nodes_distinct = v.nodes_distinct;
  }

  post_init-parts :
      (n n' : Network)
      → post_init digest n ≡ ok n'
      → (validate n ≡ ok tt)
        × (n' ≡ (
            if is_empty n.spec_hash
            then record n { spec_hash = compute_spec_hash digest n }
            else n))
  unfolding post_init
  post_init-parts n n' h = ground arith

  -- A network that is constructed is valid, and without a stored hash it gets a fresh one.
  pub post_init-IsValid :
      (n n' : Network)
      → post_init digest n ≡ ok n'
      → IsValid n' × (is_empty n.spec_hash ≡ true → IsFresh n')
  unfolding post_init
  post_init-IsValid n n' h =
      let (valid, same) = post_init-parts n n' h in
      let v = (validate_iff n).0 valid in
      elim (Bool-cases (is_empty n.spec_hash)) [
        | inl blank ↦
            subst (λ m. IsValid m × (is_empty n.spec_hash ≡ true → IsFresh m)) (sym same)
              (rw blank (rehashed n v, λ _. unfold compute_spec_hash canonical in refl))
        | inr hashed ↦
            subst (λ m. IsValid m × (is_empty n.spec_hash ≡ true → IsFresh m)) (sym same)
              (rw hashed (v, λ e. absurd (cc)))
      ]

  -- The hash depends on the intent alone: not on the times, the version, the identity or the stored
  -- hash.
  pub compute_spec_hash_intent :
      (n : Network) (id : String) (created updated version : ℕ) (hash : String)
      → compute_spec_hash digest (record n {
        id = id;
        created_at = created;
        updated_at = updated;
        intent_version = version;
        spec_hash = hash;
      })
        ≡ compute_spec_hash digest n
  unfolding compute_spec_hash canonical
  compute_spec_hash_intent n id created updated version hash = refl
