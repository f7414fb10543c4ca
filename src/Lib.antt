-- ===== src/Lib.antt =====
-- A verification library for the service-based 5G core with gRPC: the network functions AMF, SMF, UPF
-- and AUSF, and the simulated base station, as they exchange messages over gRPC, UDP and SCTP.
--
-- The parts, and the files that model them:
--
-- - Packets (src/packet.cpp, src/gtp.cpp, src/s1ap.cpp, src/diameter.cpp): Packet/Headers,
--   Packet/Buffer, Packet/Append, Packet/Extract. A packet is a buffer of 1024 bytes with a cursor and
--   a length; each overload of append_item and extract_item is a function of its own. An access
--   outside the buffer, which the source does not guard against, is a fault. Packet/View describes a
--   packet by the bytes that were read or written and those that are to come; the lemmas of
--   Packet/Moves, Packet/Numbers and Packet/Transport say what the operations do to a view,
--   and Packet/Items what a list of items is on the wire.
-- - Identifiers (src/telecom.cpp): Telecom, over decimal numbers in Decimal and Decimal/Laws. 20
--   digits are enough for a uint64_t.
-- - Security (src/security.cpp): Security, with OpenSSL as a parameter (the record Openssl) and its
--   documented laws as a hypothesis (IsOpenssl); Security/Protection.
-- - Messages: Net and Sctp for what leaves a process or enters it (src/network.cpp, src/udp_client.cpp,
--   src/udp_server.cpp, src/sctp_client.cpp), with Sctp/Framing and Sctp/Writing; Sctp/Server for the
--   accepting thread and the workers of src/sctp_server.cpp and src/utils.cpp, with Sctp/Turns and
--   Sctp/Workers; Messages and Exchanges for control messages over GTP, Rpc for the gRPC messages
--   (protos/ngcode.proto).
-- - UPF (src/upf.cpp, src/upf_server.cpp): Upf/State, Upf/Tables, Upf/Session, Upf/Handover,
--   Upf/Server; proofs in Upf/Sessions, Upf/Replies, Upf/Lifecycle, Upf/Addresses, Upf/Downlink,
--   Upf/Tunnels, and Upf/Requests for what each request makes of the state; UpfPeer is the UPF as the
--   peer of a client.
-- - SMF (src/smf.cpp, src/smf_server.cpp): Smf/State, Smf/Handlers; proofs in Smf/Lifecycle,
--   Smf/Silence, Smf/Reachable. It calls the UPF over UDP, which is a parameter of its handlers;
--   Core puts the modelled UPF in its place, for a session from its set-up to its end (Core/Life).
-- - AMF (src/amf.cpp, src/amf_server.cpp): Amf/State, Amf/Clients, Amf/Attach, Amf/Session,
--   Amf/Handover, Amf/Server; proofs in Amf/Identity, and for
--   the switch in Amf/Switch, Amf/Ids and Amf/Runs. AUSF, SMF and UPF are parameters of its handlers.
-- - AUSF (src/ausf.cpp, src/ausf_server.cpp): Ausf, over the two tables of the subscriber database. What
--   comes of the `return` that its handlers lack is a parameter.
-- - Base station (src/ran.cpp, src/ran.h): Ran/State, Ran/Attach, Ran/Session, Ran/Traffic and
--   Ran/Handover, with Ran/Accepted for what it takes from an attach accept; proofs in Ran/Keys.
-- - Load generator (src/ran_simulator.cpp): Simulator, the loop of a thread; proofs in
--   Simulator/Registrations; Simulator/Schedule for the distribution of the load, over the samples of
--   the standard library's Poisson distribution, which are an argument.
-- - Sink (src/sink.cpp): Sink, the far end of the data plane.
-- - Composition: Signals and Signals/Protected say what a message between the AMF and a base station
--   is for the one that sends it and the one that reads it, Amf/Replies what the AMF answers. On them
--   stand Attach, SecurityMode (with SecurityMode/Exchange), AttachAccept, Detach, Handover and
--   Handover/Tunnel for the procedures of the two, and DataPlane for user data from the base station
--   to the sink and back. Registration goes through a whole round of
--   the load generator at the switch of the AMF: Registration/Challenges, Registration/Answers,
--   Registration/Accepts and Registration/Sessions for the AMF, Registration/Station for the base
--   station, Registration/Legs for each message and its answer, Registration/Rounds for all of them,
--   Registration/Outcome for what they come to. System and System/Joined put the SMF over the UPF in
--   the place of the SMF that the AMF calls there.
--
-- A handler is a function of the packet or request and of the state of its class; it returns the new
-- state and what it sends, or a fault: an access outside a buffer, the end of the process through
-- handle_type1_error, or an exception that nothing catches. Memory that the source reads without
-- having written it (`raw`, `fresh`, `unset`) is an argument, so nothing is assumed of it. An
-- unordered_map is a function to options (UnorderedMap); operator[] on a missing key makes an entry.
-- Whether a text is an address is up to inet_aton of the C library, a parameter of the handlers of user
-- data; where it says no, the process ends.
-- Machine integers are numbers below a power of two, with the wrap-around written out.
--
-- No definition runs on fuel but the digits of a number and the loops of Upf::set_ip_addrs and of
-- schedule, whose rounds are counted down. A loop over system calls is a function of the list of what
-- the calls to come give, and a loop over connections is one of the list of connections.
--
-- Not modelled: threads and locks (handlers run one at a time), sockets, pipes and interfaces, the
-- registration with Consul and the look-ups of addresses, and the libraries in src/ppconsul and
-- src/grpclb. Examples at concrete values are in Tests, Upf/Tests, Upf/TunnelTests and Cases.
pub mod Base
pub mod Result
pub mod Bytes
pub mod Packet
pub mod Decimal
pub mod UnorderedMap
pub mod Telecom
pub mod Net
pub mod Messages
pub mod Upf
pub mod Security
pub mod Sctp
pub mod Rpc
pub mod Exchanges
pub mod Smf
pub mod Amf
pub mod Ausf
pub mod Ran
pub mod Cases
pub mod Tests
pub mod Signals
pub mod DataPlane
pub mod AttachAccept
pub mod Detach
pub mod Handover
pub mod Attach
pub mod Sink
pub mod SecurityMode
pub mod Simulator
pub mod Registration
pub mod UpfPeer
pub mod Core
pub mod System
