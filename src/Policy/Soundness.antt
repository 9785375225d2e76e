-- ===== src/Policy/Soundness.antt =====
-- The compiled chains do what the rules ask for (src/sdn_controller/core/services/policy_compiler.py).
use nervum.Prelude.{is_some, ◌≡◌, String, true, false, Option, none, some, is_empty, lookup}
use nervum.Policy.{PolicyRule}
use nervum.Policy.Compiler.{Lookups}
use nervum.Policy.Nft.{Nft}
use nervum.Policy.Writable.{AreEnds, IsService, protocol_of, ports_of}

module _ {Packet : Type 0} (nft : Nft Packet) where
  -- A service that is given is known.
  abbrev pub IsKnown : Lookups → Option String → Type 0
  IsKnown tables none = Unit
  IsKnown tables (some id) = is_empty id ≡ false → is_some (lookup id tables.service_protos) ≡ true

  module _ (tables : Lookups) where
    -- The compiler writes the rule in words that nft reads, and its references are to groups and pools
    -- with members, and to a known service.
    abbrev pub IsWritable : PolicyRule → Type 0
    IsWritable rule =
        AreEnds nft tables rule
        × IsService nft tables (protocol_of nft tables rule) (ports_of nft tables rule)
        × IsKnown tables rule.service_object_id
