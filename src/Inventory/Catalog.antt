-- ===== src/Inventory/Catalog.antt =====
-- The catalog of nodes and networks over any sequence of calls
-- (src/sdn_controller/core/use_cases/networks.py, nodes.py).
use nervum.Prelude.{
  inr, inl, Bool-cases, ◌≡◌, refl, sym, ap, ◌∙◌, String, true, false, none, some, Option, [], ◌∷◌,
  any, values, Dict, AllEntries, insert-AllEntries, lookup, opt_str_eq, eq_iff, str_eq, arith,
  is_some,
}
use nervum.Errors.{or_raise, DomainError, ok}
use nervum.Operation.{Operation}
use nervum.Operation.Events as Events
use nervum.Node.{Node}
use nervum.Network.{post_init, Network, Canonical}
use nervum.Network.Validity as Validity
use nervum.Inventory.{Inventory, save_network, save_operation, publish}
use nervum.Inventory.Networks.{is_named}
use nervum.Inventory.Nodes.{get_by_name, save_node}
use nervum.Inventory.Distinct.{Distinct, IsUnlike, insert-Distinct, any-values}
use nervum.Inventory.Revisions.{IsSame}

abbrev pub AreNamesakes : Network → Network → Type 0
AreNamesakes n m = (n.name ≡ m.name) × (n.project_id ≡ m.project_id)

abbrev pub IsEntry : String → Network → Type 0
IsEntry k n = (n.id ≡ k) × Validity.IsValid n

abbrev pub IsNodeEntry : String → Node → Type 0
IsNodeEntry k n = n.id ≡ k

abbrev pub HaveOneName : Node → Node → Type 0
HaveOneName n m = n.name ≡ m.name

abbrev pub IsRecorded : String → Operation → Type 0
IsRecorded k op = (op.id ≡ k) × Events.IsValid op

-- Every network stands under its id and is valid, no two networks of a project have one name, every
-- node stands under its id, no two nodes have one name, and every operation stands under its id
-- with a history that follows the diagram.
pub record IsCatalog (inv : Inventory) : Type 0 where
  pub networks : AllEntries IsEntry inv.networks
  pub network_names : Distinct AreNamesakes inv.networks
  pub nodes : AllEntries IsNodeEntry inv.nodes
  pub node_names : Distinct HaveOneName inv.nodes
  pub operations : AllEntries IsRecorded inv.operations

flip : (v w : Network) → AreNamesakes v w → AreNamesakes w v
flip v w h = (sym h.0, sym h.1)

-- A network and an operation are saved.
pub saved-IsCatalog :
    (inv : Inventory) (n : Network) (op : Operation)
    → IsCatalog inv
    → Validity.IsValid n
    → IsUnlike AreNamesakes n.id n inv.networks
    → Events.IsValid op
    → IsCatalog (save_operation op (save_network n inv))
saved-IsCatalog inv n op c v unlike history = record {
  networks = insert-AllEntries IsEntry n.id n inv.networks (refl, v) c.networks;
  network_names = insert-Distinct AreNamesakes n.id n inv.networks flip unlike c.network_names;
  nodes = c.nodes;
  node_names = c.node_names;
  operations = insert-AllEntries IsRecorded op.id op inv.operations (refl, history) c.operations;
}

pub published-IsCatalog :
    (inv : Inventory) (e t i : String) → IsCatalog inv → IsCatalog (publish e t i inv)
published-IsCatalog inv e t i c = record {
  networks = c.networks;
  network_names = c.network_names;
  nodes = c.nodes;
  node_names = c.node_names;
  operations = c.operations;
}

-- Names and projects that are equal are found equal.
opt_same : (a b : Option String) → a ≡ b → opt_str_eq a b ≡ true
opt_same none none e = refl
opt_same none (some y) e = cc e
opt_same (some x) none e = cc e
opt_same (some x) (some y) e = (eq_iff x y).1 (cc e)

named_alike :
    (name : String) (project : Option String) (n : Network)
    → name ≡ n.name
    → project ≡ n.project_id
    → is_named name project n ≡ true
named_alike name project n e f =
    let s = (eq_iff n.name name).1 (sym e) in
    let t = opt_same n.project_id project (sym f) in ground (arith, s, t)

pub post_init-IsSame :
    (digest : Canonical → String) (n m : Network) → post_init digest n ≡ ok m → IsSame n m
unfolding post_init
post_init-IsSame digest n m h = ground arith

-- No network of the project has the name.
pub fresh_name :
    (inv : Inventory) (name : String) (project : Option String) (n : Network)
    → any (is_named name project) (values inv.networks) ≡ false
    → n.name ≡ name
    → n.project_id ≡ project
    → IsUnlike AreNamesakes n.id n inv.networks
fresh_name inv name project n free e f j w there alike = absurd (
    cc (
      any-values (is_named name project) inv.networks free j w there,
      named_alike name project w (sym e ∙ alike.0) (sym f ∙ alike.1),
    ))

pub found_there :
    {A : Type 0} (o : Option A) (e : DomainError) (a : A) → or_raise o e ≡ ok a → o ≡ some a
found_there none e a h = cc h
found_there (some b) e a h = cc h

-- A new revision of a network is like none but its old self.
pub own_name :
    (inv : Inventory) (key : String) (old new : Network)
    → IsCatalog inv
    → lookup key inv.networks ≡ some old
    → IsSame old new
    → IsUnlike AreNamesakes new.id new inv.networks
own_name inv key old new c there same j w found alike =
    same.0
    ∙ (c.networks.1 key old there).0
    ∙ c.network_names key j old w there found (sym same.1 ∙ alike.0, sym same.2 ∙ alike.1)

-- A node and an operation are saved.
pub registered-IsCatalog :
    (inv : Inventory) (n : Node) (op : Operation)
    → IsCatalog inv
    → IsUnlike HaveOneName n.id n inv.nodes
    → Events.IsValid op
    → IsCatalog (save_operation op (save_node n inv))
registered-IsCatalog inv n op c unlike history = record {
  networks = c.networks;
  network_names = c.network_names;
  nodes = insert-AllEntries IsNodeEntry n.id n inv.nodes refl c.nodes;
  node_names = insert-Distinct HaveOneName n.id n inv.nodes (λ v w e. sym e) unlike c.node_names;
  operations = insert-AllEntries IsRecorded op.id op inv.operations (refl, history) c.operations;
}

lookup_head :
    (k j : String) (v w : Node) (d : Dict Node)
    → lookup j ((k, v) ∷ d) ≡ some w
    → str_eq k j ≡ true
    → v ≡ w
lookup_head k j v w d h e = ground arith

lookup_tail :
    (k j : String) (v w : Node) (d : Dict Node)
    → lookup j ((k, v) ∷ d) ≡ some w
    → str_eq k j ≡ false
    → lookup j d ≡ some w
lookup_tail k j v w d h e = ground arith

-- No node has the name.
pub unlike_node :
    (name : String) (d : Dict Node)
    → is_some (get_by_name name d) ≡ false
    → (j : String) (w : Node) → lookup j d ≡ some w
    → ¬ (w.name ≡ name)
unfolding get_by_name
unlike_node name [] free j w there e = cc there
unlike_node name ((k, v) ∷ d) free j w there e = elim (Bool-cases (str_eq k j)) [
  | inl same ↦
      let named =
        (eq_iff v.name name).1 (ap (λ x. x.name) (lookup_head k j v w d there same) ∙ e) in
      ground (arith, named)
  | inr other ↦
      let rest : is_some (get_by_name name d) ≡ false = ground arith in
      unlike_node name d rest j w (lookup_tail k j v w d there other) e
]
