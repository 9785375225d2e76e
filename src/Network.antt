-- ===== src/Network.antt =====
-- The `Network` aggregate of src/sdn_controller/core/entities/network.py. Integers are natural
-- numbers: a negative one fails the same range tests as 0. The canonical form of a spec is a record
-- of the entries that the code puts into its dict; JSON and SHA-256 together are a parameter, a
-- function of that form.
pub mod Validity
pub mod Intent
use Prim.Native.Nat.{Ordering}
use Prim.Native.String.{compare}
use mathlib.Core.Option
use nervum.Prelude.{
  sort_items, ℕ, ◌+◌, String, Bool, true, false, not, ◌&&◌, ◌||◌, Option, none, some, List, [], ◌∷◌,
  map, leb, any, is_some, is_blank, is_empty, str_eq, Dict, if◌then◌else◌,
}
use nervum.Errors.{Result, ok, err, validation_error, raise_if, ◌>>=◌, ◌>>◌}
use nervum.EdgeServices.{NatSpec, FirewallPolicy, FirewallRule, FirewallAction, FirewallProto}
use nervum.Ipam.{Subnet}

pub data NetworkType : Type 0 where
  flat vlan vxlan : NetworkType

pub record Network : Type 0 where
  pub id : String
  pub name : String
  pub type : NetworkType
  pub created_at : ℕ
  pub updated_at : ℕ
  pub mtu : ℕ
  pub vlan_id : Option ℕ
  pub vni : Option ℕ
  pub subnet : Option Subnet
  pub intent_version : ℕ
  pub labels : Dict String
  pub node_ids : List String
  pub nat : Option NatSpec
  pub firewall_policy : Option FirewallPolicy
  pub spec_hash : String
  pub project_id : Option String

abbrev pub member : String → List String → Bool
member x = any (λ y. str_eq y x)

-- `len(set(xs)) != len(xs)`
abbrev pub has_duplicates : List String → Bool
has_duplicates [] = false
has_duplicates (x ∷ xs) = member x xs || has_duplicates xs

abbrev pub in_range : ℕ → ℕ → ℕ → Bool
in_range lo hi n = leb lo n && leb n hi

-- `if x is None: raise …` and then the range test
check_tag : ℕ → ℕ → Option ℕ → Option ℕ → Result (Unit {0})
check_tag lo hi none other = err validation_error
check_tag lo hi (some n) other = do
  raise_if (is_some other) validation_error
  raise_if (not (in_range lo hi n)) validation_error

-- The `match self.type` of `_validate`.
check_type : NetworkType → Option ℕ → Option ℕ → Result (Unit {0})
unfolding check_tag
check_type flat vlan_id vni = raise_if (is_some vlan_id || is_some vni) validation_error
check_type vlan vlan_id vni = check_tag 1 4094 vlan_id vni
check_type vxlan vlan_id vni = check_tag 1 16777215 vni vlan_id

unfoldable pub validate : Network → Result (Unit {0})
unfolding check_type
validate n = do
  raise_if (is_empty n.name || is_blank n.name) validation_error
  raise_if (not (in_range 576 9216 n.mtu)) validation_error
  check_type n.type n.vlan_id n.vni
  raise_if (has_duplicates n.node_ids) validation_error

-- `sorted` on texts, by code points; an equal element stays behind.
insert_text : String → List String → List String
insert_text x [] = x ∷ []
insert_text x (y ∷ ys) = elim (compare y x) [ Ordering.gt ↦ x ∷ y ∷ ys | _ ↦ y ∷ insert_text x ys ]

sort_texts : List String → List String
unfolding insert_text
sort_texts [] = []
sort_texts (x ∷ xs) = insert_text x (sort_texts xs)

pub record CanonicalDhcp : Type 0 where
  pub range_start : String
  pub range_end : String
  pub lease_time_seconds : ℕ
  pub domain_name : Option String

pub record CanonicalSubnet : Type 0 where
  pub cidr : String
  pub gateway : Option String
  pub dns_zone : Option String
  pub dhcp : Option CanonicalDhcp

subnet_to_canonical : Option Subnet → Option CanonicalSubnet
subnet_to_canonical none = none
subnet_to_canonical (some s) = some (record {
  cidr = s.cidr;
  gateway = s.gateway;
  dns_zone = s.dns_zone;
  dhcp =
      Option.map
        (λ d. record {
          range_start = d.range_start;
          range_end = d.range_end;
          lease_time_seconds = d.lease_time_seconds;
          domain_name = d.domain_name;
        })
        s.dhcp;
})

pub record Canonical : Type 0 where
  pub name : String
  pub type : NetworkType
  pub mtu : ℕ
  pub vlan_id : Option ℕ
  pub vni : Option ℕ
  pub subnet : Option CanonicalSubnet
  pub labels : Dict String
  pub node_ids : List String
  pub nat : Option String
  pub firewall_policy : Option FirewallPolicy
  pub project_id : Option String

unfoldable pub canonical : Network → Canonical
unfolding sort_texts sort_items subnet_to_canonical
canonical n = record {
  name = n.name;
  type = n.type;
  mtu = n.mtu;
  vlan_id = n.vlan_id;
  vni = n.vni;
  subnet = subnet_to_canonical n.subnet;
  labels = sort_items n.labels;
  node_ids = sort_texts n.node_ids;
  nat = Option.map (λ nat. nat.egress_interface) n.nat;
  firewall_policy = n.firewall_policy;
  project_id = n.project_id;
}

-- `sha256` of the JSON text of a canonical form, in hexadecimal.
module _ (digest : Canonical → String) where
  unfoldable pub compute_spec_hash : Network → String
  compute_spec_hash n = digest (canonical n)

  -- `Network.__post_init__`
  unfoldable pub post_init : Network → Result Network
  unfolding compute_spec_hash
  post_init n = do
    validate n
    ok (if is_empty n.spec_hash then record n { spec_hash = compute_spec_hash n } else n)

  unfoldable pub bump_intent : ℕ → Network → Network
  unfolding compute_spec_hash
  bump_intent now n =
      let bumped : Network = record n { intent_version = n.intent_version + 1; updated_at = now } in
      record bumped { spec_hash = compute_spec_hash bumped }

  unfoldable pub set_nodes : List String → ℕ → Network → Result Network
  unfolding bump_intent
  set_nodes node_ids now n = do
    raise_if (has_duplicates node_ids) validation_error
    ok (bump_intent now (record n { node_ids = node_ids }))
