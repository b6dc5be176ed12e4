-- ===== src/Lib.antt =====
-- nl6 simulates a fleet of network devices (go/nl6). This library models its core logic and proves
-- what that logic promises.
--
-- Parts and files:
--   * SNMP: BER lengths, integers, tagged values, OBJECT IDENTIFIERs with their order, and typed values (Snmp/Length,
--     Integer, Tlv, Oid and Value; go/nl6/snmp_encoding.go and, for the trap path's OID encoder,
--     trap_encode_fast.go), the fields of a request and its variable bindings (Snmp/Request and
--     Varbinds; snmp_response.go and snmp_handlers.go), the responses and their datagram budget
--     (Snmp/Response; snmp_response.go), the SetRequest (Snmp/Set with Set/Handle; snmp_set.go), the walk over the served OIDs
--     (Snmp/Walk; snmp_handlers.go and lldp_table.go), GETNEXT and GETBULK over it (Snmp/GetNext and
--     Bulk; snmp_handlers.go, and snmpv3.go for the clamp), and the dispatch of a datagram
--     (Snmp/Server; snmp_server.go).
--     Octets are natural numbers; a run of code that indexes a datagram is a value of Go (Prelude/Go):
--     it returns, it panics, or the fuel of a loop ran out.
--   * Interfaces: the state engine of a device's ports (Interface/Word, State, Mutate and
--     Broadcast; go/nl6/interface_state.go). Word is the packed slot and the derivation of
--     the oper-status, State the tables and the getters, Mutate the two mutators with the cascade to
--     sub-interfaces, Broadcast the fan-out of events to the listeners' channels.
--   * Scenarios: the phases of the load-test controller, with a start that is rolled back
--     (Scenario/Phase; go/nl6/scenario_controller.go), the gate
--     that each fire of a device passes (Scenario/Gate; scenario_gate.go and scenario_ledger.go), the
--     slot that makes a device exclusive to one scenario (Scenario/Claim; scenario_gate.go), the
--     counters and the drain barrier under concurrent fires (Scenario/Fire; syslog_exporter.go and
--     scenario_drain.go), and the ledger of applications (Scenario/Apps; scenario_ledger.go and
--     ipfix_avc.go).
--   * Counters: the hold of octet counters while an interface is down (Counters/Hold;
--     go/nl6/if_counter_hold.go), for an interface that is no child and no aggregate, whose dial is a
--     function of time.
--   * Flows: the cache of a device's flows and its expiry (Flow; go/nl6/flow_cache.go).
--   * Datagrams: the path MTU and the budgets of the subsystems (Datagram; datagram_budget.go), which
--     the SNMP responses are held to.
--   * NETCONF: the framing of messages (Netconf; go/nl6/netconf_framing.go).
--   * Topology: the links between devices and the links of each device (Topology; go/nl6/topology.go).
--   * Addresses: the allocation of device addresses (IpAlloc; go/nl6/ipalloc.go).
--   * Prelude has the shared lists, bytes, integers and runs of Go code; Tests applies the properties
--     to concrete inputs.
-- The engine's events go to the listeners of Broadcast; Gate decides in the fires of Fire, whose
-- writes count in the ledger of Gate; Phase is the state machine whose phases the gate publishes.
-- Set/Handle reads a datagram through Request and Varbinds, Set decides on the bindings and writes
-- through the mutator of Interface, whose events are those it broadcasts, and Response frames the
-- verdict. Server reads the community and the kind of a datagram and hands it to Set/Handle, GetNext
-- or Bulk, which step by Walk and frame their answers by Response. The ledger of Apps counts the
-- flow records of Flow.
--
-- A method of a Go type is the function of the same name in snake case on the record of that type,
-- and returns the new state with its result. Machine integers are natural numbers with the wrap
-- written as a remainder; a negative ifIndex takes the branches of 0. Go's map is its entries in
-- the order that the source sorts them in, or that they were made in, or a function. A nil table or
-- pointer is none. An error is a value without its message.
--
-- Concurrency: the compare-and-swap loops of the interface engine and of the participation slot are
-- modelled by the round that wins, which is atomic; Scenario/Fire has a step for each atomic
-- operation of a fire, in any interleaving with the other fires, the controller and the finalizer.
--
-- Fuel: the loops that shift a number to zero recurse on its accessibility; the loop that skips
-- padding has one round for each octet in front of the last, which is all that its own condition
-- allows; the search for a host has three rounds, and the walk over the networks of a batch one for
-- each address of their distance; the reader of NETCONF chunks has one more than the stream has
-- bytes; the loops over a list of variable bindings and over the sub-identifiers of an OID have one
-- more than there are octets, and the comparison of two OIDs two more than both have together; the
-- binary search of a walk has a round for each index. They are proved enough. The loop that skips
-- Counter64 values recurses on its budget. A chunk's size is printed with up to 19 digits, those
-- of an int.
--
-- Parameters: net.ParseIP and To4, sort.Slice, which is given the order that the source sorts by,
-- the table of the SNMP types and the readings of a clock are arguments of the definitions that use
-- them; what a device answers beside its resource files is read through the fields of a record of
-- functions (Snmp/Walk).
--
-- Not modelled: sockets, goroutine scheduling, locks and the Go runtime's memory, the protocols'
-- catalogs and templates, the exporters' wire formats, the REST API and the web UI, TUN devices and
-- network namespaces, the generated code and the command-line tools. The deadline of the drain
-- barrier is not modelled: Drained is the case in which the wait did not give up.
pub mod Prelude
pub mod Snmp
pub mod Interface
pub mod Scenario
pub mod Flow
pub mod Topology
pub mod Datagram
pub mod Tests
pub mod Counters
pub mod IpAlloc
pub mod Netconf
