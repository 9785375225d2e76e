-- ===== src/Lib.antt =====
-- Verification of the Nervum SDN controller and its NetOS agent.
--
-- Parts and files
--   Operation     the Operation aggregate and its state machine
--                 (src/sdn_controller/core/entities/operation.py).
--   Node          the Node entity and the status derived from its heartbeats
--                 (core/entities/node.py, core/services/node_status.py).
--   Locks         the in-memory lock store that guards an apply (adapters/locks.py).
--   EdgeServices  DHCP, NAT and firewall values (core/value_objects/edge_services.py).
--   Address       addresses as Python's ipaddress reads and prints them.
--   Ipam          ranges, subnets and the allocator (core/value_objects/ipam.py,
--                 core/entities/network.py, core/services/ip_allocator.py).
--   Network       the Network aggregate and its spec hash (core/entities/network.py).
--   Allocations   the IPAM use cases over the in-memory repositories (core/use_cases/ipam.py).
--   Ovs           the agent's OVS database in memory and its snapshots
--                 (src/netos_agent/adapters/ovsdb_fake/adapter.py,
--                 src/netos_agent/core/entities/ovs_state.py).
--   AgentServices the agent's DHCP, DNS, NAT and firewall values
--                 (src/netos_agent/core/value_objects/edge_services.py).
--   Agent         plans and how the agent applies one (src/netos_agent/core/value_objects/plan.py,
--                 src/netos_agent/core/use_cases/apply_plan.py, and the dhcp_fake, dns_fake and
--                 firewall_fake adapters).
--   Planning      the diff engine and the planner (core/services/diff_engine.py,
--                 core/services/planner.py, core/entities/observed_state.py, and the conversion of
--                 an agent's report in core/use_cases/reconcile.py). The controller plans from what
--                 Ovs reports, and Agent runs the steps on Ovs.
--   Apply         the use case that applies a network (core/use_cases/reconcile.py): it takes the lock
--                 of Locks, accepts an Operation, observes the nodes, plans with Planning, calls the
--                 agents through an interface, and verifies with Planning.
--   Inventory     the use cases that register and remove nodes and create, update and assign networks
--                 (core/use_cases/networks.py, core/use_cases/nodes.py); each records an Operation.
--   Policy        security policies and their compiler to nftables
--                 (core/entities/security_policy.py, core/services/policy_compiler.py).
--   Cron          cron schedules (core/services/cron_scheduler.py).
--   Enrollment    enrollment tokens and the use cases that issue and redeem them, and heartbeats
--                 (core/entities/enrollment_token.py, core/use_cases/enrollment.py); it works on the
--                 entities of Node.
--   Errors        the domain errors and calls that may raise one.
--   Prelude       shared notation, lists, dicts and texts.
--   Tests         runs on small inputs, and each theorem with hypotheses at such an input.
-- Paths without a leading src/ are below src/sdn_controller.
--
-- How the code is modelled
--   A dataclass is a record and an enum a data type. A method that changes an object returns the
--   new object; a call that may raise returns a Result whose errors are the classes of domain
--   errors, without their messages. A repository is a dict of values, as the in-memory
--   repositories keep deep copies. A datetime is a natural number of microseconds. The clock's
--   reading and new identifiers are arguments. White space and letter case are those of ASCII.
--   A loop runs
--   over a list or counts down a range; the decimal text of n has n + 1 rounds of fuel, which is
--   enough since each drops a digit.
--
-- Parameters
--   IpSyntax stands for the texts of Python's ipaddress; where a theorem needs it, IsFaithful
--   says that the text of an address in a network reads back as that address. The digest of a
--   network's canonical form (JSON and SHA-256), the digest of an enrollment token's text and the
--   ids of new operations are arbitrary functions. AgentPort stands for the agents, which may answer
--   or raise anything; ip_network on the CIDR of a policy rule is an arbitrary function. Nft stands for
--   the program nft: how it reads the text of a match, the sets of words that it takes, and the tests
--   that it makes on a packet; IsDocumented says that it reads an address selector, a service
--   selector, or one after the other, as its documentation describes them.
--
-- Not modelled
--   Quotas; the entities and use cases of
--   the N1 to N5 blocks and the configurators that render other programs' texts. The HTTP routers
--   and middlewares, the SQL adapters and migrations, the agent's adapters that run other programs,
--   the snapshot files, the command line, configuration and tracing are input and output around the core.
pub mod Prelude
pub mod Errors
pub mod Operation
pub mod Address
pub mod Node
pub mod Locks
pub mod EdgeServices
pub mod AgentServices
pub mod Ipam
pub mod Network
pub mod Allocations
pub mod Ovs
pub mod Agent
pub mod Planning
pub mod Enrollment
pub mod Apply
pub mod Policy
pub mod Cron
pub mod Inventory
pub mod Tests
