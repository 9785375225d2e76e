-- ===== src/Tests/Rules.antt =====
-- Firewall rules with and without ports
-- (src/sdn_controller/core/value_objects/edge_services.py).
use nervum.Prelude.{◌≡◌, refl, ◌↔◌, String, Bool, true, none, some}
use nervum.Errors.{ok, err, validation_error, is_ok}
use nervum.EdgeServices.{FirewallRule, FirewallAction, FirewallProto, make_firewall_rule}
use nervum.EdgeServices.Rules.{IsRule, make_firewall_rule_iff}

abbrev any_network : String → Bool
any_network _ = true

-- The last port 0 stands for the first port in the test, and stays 0 in the rule.
abbrev zero_end : FirewallRule
zero_end = record {
  action = FirewallAction.accept;
  proto = FirewallProto.tcp;
  source_cidr = some "10.0.0.0/24";
  destination_cidr = none;
  destination_port_start = some 80;
  destination_port_end = some 0;
}

make-zero_end : make_firewall_rule any_network zero_end ≡ ok zero_end
unfolding make_firewall_rule
make-zero_end = refl

-- A last port alone is refused.
make_end_only :
    make_firewall_rule any_network
      (record zero_end { destination_port_start = none; destination_port_end = some 90 })
    ≡ err validation_error
unfolding make_firewall_rule
make_end_only = refl

make_firewall_rule_iff_example :
    (is_ok (make_firewall_rule any_network zero_end) ≡ true) ↔ IsRule any_network zero_end
make_firewall_rule_iff_example = make_firewall_rule_iff any_network zero_end
