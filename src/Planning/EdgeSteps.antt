-- ===== src/Planning/EdgeSteps.antt =====
-- The edge services of a network: `_edge_service_steps` of
-- src/sdn_controller/core/services/diff_engine.py.
use nervum.Prelude.{
  String, Option, none, some, List, [], ◌∷◌, ◌++◌, map, is_empty, ◌+++◌, if◌then◌else◌,
}
use nervum.EdgeServices.{FirewallRule, NatSpec, FirewallPolicy}
use nervum.AgentServices.{FirewallRuleSpec}
use nervum.Ipam.{Subnet}
use nervum.Network.{Network}
use nervum.Agent.{
  PlanStep, ensure_dhcp_scope_step, ensure_dns_zone_step, ensure_nat_rule_step,
  ensure_firewall_policy_step,
}

unfoldable pub dhcp_scope_id : Network → String
dhcp_scope_id network = "scope-" +++ network.id

unfoldable pub nat_rule_id : Network → String
nat_rule_id network = "nat-" +++ network.id

unfoldable pub firewall_policy_id : Network → String
firewall_policy_id network = "policy-" +++ network.id

unfoldable pub dhcp_steps : Network → Option Subnet → List PlanStep
dhcp_steps network none = []
dhcp_steps network (some s) = elim s.spec.dhcp [
  | none ↦ []
  | some d ↦
      ensure_dhcp_scope_step (record {
        scope_id = dhcp_scope_id network;
        cidr = s.spec.cidr;
        range_start = d.range_start;
        range_end = d.range_end;
        gateway = s.spec.gateway;
        dns_servers = s.spec.dns_servers;
        lease_time_seconds = d.lease_time_seconds;
        domain_name = d.domain_name;
      })
      ∷ []
]

unfoldable pub dns_steps : Option Subnet → List PlanStep
dns_steps none = []
dns_steps (some s) = elim s.spec.dns_zone [
  | none ↦ []
  | some zone ↦
      if is_empty zone
      then []
      else ensure_dns_zone_step
          (record { zone = zone; records = []; soa_email = "hostmaster.invalid." })
        ∷ []
]

unfoldable pub nat_steps : Network → Option NatSpec → Option Subnet → List PlanStep
nat_steps network (some nat) (some s) =
    ensure_nat_rule_step (record {
      rule_id = nat_rule_id network;
      source_cidr = s.spec.cidr;
      egress_interface = nat.egress_interface;
    })
    ∷ []
nat_steps network _ _ = []

abbrev rule_wire : FirewallRule → FirewallRuleSpec
rule_wire r = record {
  action = r.action;
  proto = r.proto;
  source_cidr = r.source_cidr;
  destination_cidr = r.destination_cidr;
  destination_port_start = r.destination_port_start;
  destination_port_end = r.destination_port_end;
}

unfoldable pub policy_steps : Network → Option FirewallPolicy → List PlanStep
policy_steps network none = []
policy_steps network (some policy) =
    ensure_firewall_policy_step (record {
      policy_id = firewall_policy_id network;
      default_action = policy.default_action;
      rules = map rule_wire policy.rules;
    })
    ∷ []

unfoldable pub edge_service_steps : Network → List PlanStep
unfolding dhcp_steps dns_steps nat_steps policy_steps
edge_service_steps network =
    dhcp_steps network network.subnet
    ++ (dns_steps network.subnet
        ++ (nat_steps network network.nat network.subnet
            ++ policy_steps network network.firewall_policy))
