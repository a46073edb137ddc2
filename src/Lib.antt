-- ===== src/Lib.antt =====
-- A model of the OpenFlux core of Zen Server (src/OpenFlux.Zen.Server.Core), the node that carries a
-- client's IPv4 packets to the Internet over ordinary web services.
--
-- A client and a node agree on a Session over one or more carriers. A data packet of the Session has
-- a sequence number, and the replay window accepts each number once. Packets are grouped into batch
-- frames, which a carrier transports; the PHP carrier multiplexes streams instead. On the node the
-- packets come to the L3 exit, which gives them the host's address, sends them to the network, and
-- carries the replies of known flows back.
--
-- Paths below are from src/OpenFlux.Zen.Server.Core.
--
-- - Prelude: lists, bytes, words and maps over native numbers. A Go map is an association list; a
--   byte slice is a list of numbers; a read out of range, which panics in Go, gives 0, and the code
--   modelled tests lengths before it reads.
-- - Framing: transport/framing.go. frame_batch, encode_batch and decode_batch are frameBatch,
--   encodeBatch and decodeBatch; zstd is a parameter. The record loop runs on the length of its
--   input, since each round takes two bytes at least.
-- - Mux: transport/phpbox/frame.go and onBytes of transport/phpbox/mux.go. encode, take_frame and
--   on_bytes are Encode, TakeFrame and onBytes. The loop of onBytes runs on the length of the buffer,
--   since a frame takes nine bytes at least. Mux.ReadBuffer is rbuffer of mux.go, and
--   Mux.FlowControl is fcSent, onAck, fcForget and noteConsumed.
-- - Control: transport/control/control.go. encode_envelope and decode_envelope are Encode and Decode.
-- - Session.Endpoint: the Session of transport/session.go as a state with its calls. Hello has
--   receive_hello and offer_replacement, which are receiveHello and offerReplacementLocked; Data has
--   send, send_control and receive, which are Send, SendControl and receive, with the flow key of
--   transport/flow.go; Classic has sendClassic, receiveClassic and Mode; Keepalive has one round of
--   keepaliveLoop and of helloLoop; Lifecycle has NewSession, AddTransport, the first part of Start
--   and startLink. What the clock, the links' carriers, rand.Read and FNV answer in one call is the record World; what a call
--   does to carriers and callbacks is a list of actions. A call is one step: the source lets go of its
--   lock between a decision and the hellos it answers with, and that gap is not modelled.
--   Steps lists what a packet that arrives can do to a Session.
-- - Session.Replay: the replay window of transport/session.go; accept_sequence is
--   acceptSequenceLocked.
-- - L3.Checksum, L3.Packet: tunnel/l3/flow.go and the checksums of icmp.go. Two rounds of carry
--   folding are enough for a uint32.
-- - L3.Conntrack: tunnel/l3/conntrack.go. insert_flow, touch, exists_flow, sweep and close are
--   Insert, Touch, Exists, sweep and Close.
-- - L3.UdpNat: tunnel/l3/udp_nat.go. The two maps of pointers are maps of numbers into a store of
--   mappings. The network's answer, the clock and the port that the host reserves are arguments.
-- - L3.Reassembly: tunnel/l3/reassembly.go.
-- - L3.Icmp: fragmenting, makeTooBig and the parts of translateICMP of tunnel/l3/icmp.go. The loop
--   over the offsets runs on the packet's length.
-- - L3.Exit: the handlers of tunnel/l3/l3.go with sendNetwork, reportSendError, sendClient and
--   translateICMP of icmp.go, which join all parts of the exit: handle_from_transport and, in
--   L3.Exit.Inbound, handle_from_internet. What the backend, the transport, the clock and the host
--   answer during one call is the record World. L3.Exit.Lifetime has New, Stop and both sweepers.
-- - L3.SentFlows: tunnel/l3/sentflows.go.
-- - Network: TCPChecksum and IPChecksum of network/checksum.go.
-- - Traffic, Demux: the meter of transport/traffic.go, and the dispatch of transport/portdemux.go and
--   transport/framedemux.go.
-- - Session.Links, Session.Admission: the order of the links, permittedPacket and
--   validParameters of transport/session.go.
-- - Telemost: transport/yandex/fragment.go. fragment_frame is FragmentFrame and push the reassembler's
--   push, whose fragment size is a parameter, above the header's length for fragment_frame; a panic of
--   push is a result.
-- - Striped: nextPiece and deliverPiece of transport/striped.go. What dequeue takes off the queue is an
--   argument. The rounds of cutting are bounded by the frame's length, since each takes a byte at least.
-- - Limiter: subscription/server/limiter.go.
-- - Tests: the theorems at concrete inputs.
--
-- A lock makes each call one step on the tables it guards, and a call takes its times as arguments.
-- A handler of the exit is one step, its calls on the tables in the order of the source; the
-- interleaving of two handlers within a call is not modelled.
-- Not modelled: logging and statistics; the raw sockets of the backends and the carriers, which are
-- I/O with the kernel and with outside services; the compression, encryption and user-space TCP
-- libraries; the goroutines, waits and hot swaps of a Session; the reorder buffer, lanes and
-- congestion control of the striped transport; and the parts of Mux and the other packages that no
-- file here names.
pub mod Prelude
pub mod Framing
pub mod Control
pub mod Mux
pub mod Session
pub mod L3
pub mod Network
pub mod Traffic
pub mod Demux
pub mod Limiter
pub mod Telemost
pub mod Striped
pub mod Tests
