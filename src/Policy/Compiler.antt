-- ===== src/Policy/Compiler.antt =====
-- The compiler of security policies to nftables:
-- src/sdn_controller/core/services/policy_compiler.py.
use nervum.Prelude.{
  String, Bool, true, false, not, ◌&&◌, ◌||◌, Option, none, some, List, [], ◌∷◌, ◌++◌, map, filter,
  str_eq, is_empty, Dict, lookup, if◌then◌else◌, ◌+++◌,
}
use nervum.Policy.{PolicyRule, SecurityPolicy, sort_rules, text_in}

-- `_cidrs_for`: the CIDRs of an endpoint, or `None`.
unfoldable pub cidrs_for : String → String → Dict (List String) → Option (List String)
cidrs_for type value resolved =
    if str_eq type "any"
    then none
    else if str_eq type "cidr"
    then (if is_empty value then none else some (value ∷ []))
    else lookup (type +++ ":" +++ value) resolved

-- A match expression of `_nft_match`: `ip`, `saddr …`, `daddr …`, a protocol and `dport …`.
pub data Part : Type 0 where
  ip : Part
  saddr daddr : List String → Part
  proto : String → Part
  dport : List String → Part

-- `x or []` on an optional list
abbrev pub or_none_listed : Option (List String) → List String
or_none_listed none = []
or_none_listed (some xs) = xs

-- `[part(xs)] if xs else []`
abbrev pub unless_empty : (List String → Part) → List String → List Part
unless_empty part [] = []
unless_empty part (x ∷ xs) = part (x ∷ xs) ∷ []

abbrev pub has_any : List String → Bool
has_any [] = false
has_any (_ ∷ _) = true

-- `if proto and proto != "any": parts.append(proto)`
abbrev pub proto_parts : Option String → List Part
proto_parts none = []
proto_parts (some p) = if not (is_empty p) && not (str_eq p "any") then proto p ∷ [] else []

-- `if dports and proto in ("tcp", "udp")`
abbrev pub port_parts : Option String → List String → List Part
port_parts none ports = []
port_parts (some p) ports = if text_in p ("tcp" ∷ "udp" ∷ []) then unless_empty dport ports else []

unfoldable pub nft_match :
    Option (List String) → Option (List String) → Option String → Option (List String) → List Part
nft_match source destination protocol ports =
    let src = or_none_listed source in
    let dst = or_none_listed destination in
    (if has_any src || has_any dst then ip ∷ [] else [])
    ++ (unless_empty saddr src
        ++ (unless_empty daddr dst
            ++ (proto_parts protocol ++ port_parts protocol (or_none_listed ports))))

-- `", ".join(words)`, or with another separator
abbrev pub join : String → List String → String
join sep [] = ""
join sep (w ∷ []) = w
join sep (w ∷ (v ∷ words)) = w +++ sep +++ join sep (v ∷ words)

abbrev pub print_set : String → List String → String
print_set word [] = word +++ " {  }"
print_set word (x ∷ []) = word +++ " " +++ x
print_set word (x ∷ (y ∷ xs)) = word +++ " { " +++ join ", " (x ∷ (y ∷ xs)) +++ " }"

abbrev pub print_part : Part → String
print_part ip = "ip"
print_part (saddr xs) = print_set "saddr" xs
print_part (daddr xs) = print_set "daddr" xs
print_part (proto p) = p
print_part (dport xs) = print_set "dport" xs

-- `" ".join(match_parts)`
abbrev pub match_text : List Part → String
match_text parts = join " " (map print_part parts)

-- What a rule is compiled to: a comment in its place, or a statement, of which the verdict is whether
-- it accepts.
pub data Line : Type 0 where
  skipped_source skipped_destination : PolicyRule → Line
  statement : List Part → Bool → PolicyRule → Line

-- `rule.source_type not in ("any", "cidr") and src_cidrs is None`
abbrev pub is_unresolved : String → Option (List String) → Bool
is_unresolved type (some _) = false
is_unresolved type none = not (text_in type ("any" ∷ "cidr" ∷ []))

-- `service.get(sobj_id)` where the rule has a service, else `None`
abbrev pub service_of {ℓ} : {A : Type ℓ} → Option String → Dict A → Option A
service_of none services = none
service_of (some id) services = if is_empty id then none else lookup id services

-- The three dicts that `compile` takes.
pub record Lookups : Type 0 where
  pub resolved_cidrs : Dict (List String)
  pub service_protos : Dict String
  pub service_ports : Dict (List String)

-- `_compile_rule`
unfoldable pub compile_rule : Lookups → PolicyRule → Line
compile_rule tables rule =
    let src = cidrs_for rule.source_type rule.source_value tables.resolved_cidrs in
    let dst = cidrs_for rule.destination_type rule.destination_value tables.resolved_cidrs in
    let protocol = service_of rule.service_object_id tables.service_protos in
    let ports = service_of rule.service_object_id tables.service_ports in
    if is_unresolved rule.source_type src
    then skipped_source rule
    else if is_unresolved rule.destination_type dst
    then skipped_destination rule
    else statement (nft_match src dst protocol ports) (str_eq rule.action "allow") rule

abbrev pub print_comment : PolicyRule → String
print_comment rule = if is_empty rule.comment then "" else "  # " +++ rule.comment

abbrev pub print_line : Line → String
print_line (skipped_source rule) =
    "        # ПРОПУЩЕНО rule_id=" +++ rule.rule_id +++ ": source " +++ rule.source_type +++ ":"
    +++ rule.source_value +++ " не разрешён"
print_line (skipped_destination rule) =
    "        # ПРОПУЩЕНО rule_id=" +++ rule.rule_id +++ ": destination " +++ rule.destination_type
    +++ ":" +++ rule.destination_value +++ " не разрешён"
print_line (statement parts accepts rule) =
    "        "
    +++ match_text parts
    +++ " counter "
    +++ (if accepts then "accept" else "drop")
    +++ print_comment rule
    +++ "  # rule_id="
    +++ rule.rule_id

-- `r.enabled and r.direction in (direction_key, "both")`
abbrev pub is_in_chain : String → PolicyRule → Bool
is_in_chain direction rule = rule.enabled && text_in rule.direction (direction ∷ "both" ∷ [])

-- The lines of a chain, in their order.
unfoldable pub compile_chain : Lookups → String → List PolicyRule → List Line
compile_chain tables direction rules =
    map (compile_rule tables) (sort_rules (filter (is_in_chain direction) rules))

abbrev pub print_chain : Lookups → String → String → List PolicyRule → List String
print_chain tables direction hook rules =
    ("    chain " +++ hook +++ " {")
    ∷ (("        type filter hook " +++ hook +++ " priority 0; policy drop;")
        ∷ (map print_line (compile_chain tables direction rules) ++ "    }" ∷ ("" ∷ [])))

-- `PolicyCompiler.compile`, where `table_of` is `policy.id.replace("-", "_")`
unfoldable pub compile : (String → String) → Lookups → SecurityPolicy → String
compile table_of tables policy = join "\n" (
    "#!/usr/sbin/nft -f"
    ∷ (("# SecurityPolicy: " +++ policy.name +++ " (" +++ policy.id +++ ")")
        ∷ (""
            ∷ (("table inet " +++ table_of policy.id +++ " {")
                ∷ (print_chain tables "ingress" "input" policy.rules
                    ++ (print_chain tables "egress" "output" policy.rules ++ "}" ∷ []))))))
