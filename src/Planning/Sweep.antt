-- ===== src/Planning/Sweep.antt =====
-- The steps that delete bridges, run on an agent
-- (src/sdn_controller/core/services/diff_engine.py: the loop over stale bridges, and
-- `_cleanup_for_network`).
use nervum.Prelude.{
  rest-AllEntries, Any, ◌⊎◌, ◌≡◌, refl, sym, ◌∙◌, ap, String, true, false, Bool, none, some, List,
  [], ◌∷◌, lookup, erase, arith, eq_iff, eq_refl, str_eq, lookup-erase, lookup-erase_self,
  Bool-cases, inl, inr,
}
use nervum.Ovs.{Bridge, Bridges, delete_bridge}
use nervum.Ovs.Database.{IsDatabase, IsBridge, delete_bridge-IsDatabase}
use nervum.Agent.{Host, apply_step}
use nervum.Planning.{deletes}
use nervum.Planning.Observed.{ObservedBridge}
use nervum.Agent.Invariant.{IsHost}
use nervum.Planning.Reports.{report_of, reports}
use nervum.Planning.Reach.{after, after-IsHost}

abbrev pub IsMarked : (ObservedBridge → Bool) → String → List ObservedBridge → Type 0
IsMarked marked k = Any (λ b. (b.name ≡ k) × (marked b ≡ true))

-- Afterwards no bridge of a marked name is left; every other is as it was, and none is new.
module _ (marked : ObservedBridge → Bool) where
  pub deletes-lookup :
      (bs : List ObservedBridge) (h : Host)
      → IsDatabase h.bridges
      → (k : String)
      → ((lookup k (after (deletes marked bs) h).bridges ≡ none) × IsMarked marked k bs)
        ⊎ ((lookup k (after (deletes marked bs) h).bridges ≡ lookup k h.bridges)
            × ¬ IsMarked marked k bs)
  unfolding apply_step delete_bridge
  deletes-lookup [] h w k = inr (refl, λ m. m)
  deletes-lookup (b ∷ bs) h w k = elim (Bool-cases (marked b)) [
    | inr e ↦ rw e (elim (deletes-lookup bs h w k) [
      | inl (gone, m) ↦ inl (gone, inr m)
      | inr (same, unmarked) ↦
          inr (same, λ m. elim m [ inl (n, t) ↦ cc t | inr later ↦ unmarked later ])
    ])
    | inl e ↦ rw e (
        let h1 : Host = record h { bridges = erase b.name h.bridges } in
        elim (deletes-lookup bs h1 (delete_bridge-IsDatabase b.name h.bridges w) k) [
          | inl (gone, m) ↦ inl (gone, inr m)
          | inr (same, unmarked) ↦ elim (Bool-cases (str_eq b.name k)) [
            | inl n ↦
                let named : b.name ≡ k = (eq_iff b.name k).0 n in
                inl (
                  same
                      ∙ ap (λ j. lookup j (erase b.name h.bridges)) (sym named)
                      ∙ lookup-erase_self b.name h.bridges w.0,
                  inl (named, refl),
                )
            | inr n ↦ inr (
              same ∙ lookup-erase b.name k h.bridges (λ q. cc ((eq_iff b.name k).1 q, n)),
              λ m. elim m [
                | inl (q, _) ↦ cc ((eq_iff b.name k).1 q, n)
                | inr later ↦ unmarked later
              ],
            )
          ]
        ])
  ]

  -- Where the database has no marked bridge there is nothing to delete.
  deletes_none :
      (bridges : Bridges)
      → IsDatabase bridges
      → ((k : String) (br : Bridge) → lookup k bridges ≡ some br → marked (report_of br) ≡ false)
      → deletes marked (reports bridges) ≡ []
  deletes_none [] w u = refl
  deletes_none ((k, br) ∷ bridges) w u = rw (u k br (rw (eq_refl k) refl)) (
      deletes_none bridges (rest-AllEntries IsBridge k br bridges w)
        (λ j b e. u j b (ground (arith, eq_iff k j, w.0.0, e))))

  reports-IsMarked :
      (bridges : Bridges) (k : String) (br : Bridge)
      → IsDatabase bridges
      → lookup k bridges ≡ some br
      → marked (report_of br) ≡ true
      → IsMarked marked k (reports bridges)
  reports-IsMarked [] k br w e m = cc e
  reports-IsMarked ((j, b) ∷ bridges) k br w e m = elim (Bool-cases (str_eq j k)) [
    | inl n ↦
        let same : b ≡ br = cc (e, n) in
        let named : b.name ≡ j = (w.1 j b (rw (eq_refl j) refl)).0 in
        inl (named ∙ (eq_iff j k).0 n, ap (λ x. marked (report_of x)) same ∙ m)
    | inr n ↦
        inr (reports-IsMarked bridges k br (rest-AllEntries IsBridge j b bridges w) (cc (e, n)) m)
  ]

  -- The delete steps for the marked bridges of a first host, run on a second one whose marked
  -- bridges are of the first, leave no marked bridge.
  pub deletes_sweep :
      (h g : Host)
      → IsHost h
      → IsHost g
      → ((k : String) (br : Bridge)
          → lookup k g.bridges ≡ some br
          → marked (report_of br) ≡ true
          → lookup k h.bridges ≡ some br)
      → deletes marked (reports (after (deletes marked (reports h.bridges)) g).bridges) ≡ []
  deletes_sweep h g wh wg same =
      let steps = deletes marked (reports h.bridges) in
      deletes_none (after steps g).bridges (after-IsHost steps g wg).0 (λ k br e.
        elim (Bool-cases (marked (report_of br))) [
          | inr m ↦ m
          | inl m ↦ elim (deletes-lookup (reports h.bridges) g wg.0 k) [
            | inl (gone, _) ↦ cc (gone, e)
            | inr (kept, unmarked) ↦
                let before : lookup k h.bridges ≡ some br = same k br (sym kept ∙ e) m in
                absurd (unmarked (reports-IsMarked h.bridges k br wh.0 before m))
          ]
        ])
