-- ===== src/Lib.antt =====
-- MiniTLS: a TCP/IP stack in Go with a TLS layer on top. This library models its IP layer and RIP,
-- pkg/ipStack with pkg/linkLayer below it, its transport layer, pkg/tcpStack, and the TLS layer,
-- pkg/tlsStack.
--
-- Prelude: the shared names of the libraries, Boolean tests on the native numbers, lists with the
-- operations that slices need, big-endian numbers, and uint32 arithmetic, which wraps.
--
-- Ip models pkg/ipStack without RIP:
--   Ip.Prefix, Ip.Table  the prefixes of net/netip, and Go maps as association lists, in the order in
--                      which a range goes through them.
--   Ip.Types           types.go, and types.go of pkg/linkLayer.
--   Ip.Match           LongestPrefixMatch of ipStack.go.
--   Ip.Packet          SerializePacket and DeserializeAndValidatePacket, with the checksums of
--                      pkg/protocol/utils.go, over the record IpLib, which stands for the libraries
--                      iptcp-headers and netstack; IsSound is what they document: a header is read
--                      back, and the sum is that of RFC 1071.
--   Ip.Forward         SendIP, RunIPLayer, ipForwarding, SRCFilter, IFUp, IFDown, LinkLayerListen.
--   Ip.Config, Ip.Init  the types of pkg/lnxconfig, and InitIPStackFromConfig behind its parser.
--   Ip.Forward.Path    a packet over several routers, each of which hears what the one before it sent by
--                      its LinkLayerListen.
--   Ip.Router          a host or a router over time, as a step relation.
--
-- Rip models rip.go of pkg/ipStack: Rip.Messages the format, Rip.Send the requests and updates,
-- Rip.Update HandleRipMessage with UpdateForwardingTable, and CheckForTimeouts. The router runs
-- HandleRipMessage as a handler of the IP layer.
--
-- Tcp models pkg/tcpStack, a module for each part:
--   Tcp.CircleBuf      circleBuf.go: the ring under both buffers; its children show it a queue of bytes.
--   Tcp.Types          types.go: a connection is a record Conn of its table entry, its two buffers and
--                      its retransmission queue.
--   Tcp.EarlyArrivals  earlyArrivals.go: the heap of early segments, with container/heap written out;
--                      its children show that it keeps the elements and their order.
--   Tcp.Output         the send helpers of doTcp.go and the teardown of closing.go.
--   Tcp.Receive        handlePayload (doTcp.go), handleFin, handleEarlyFin (closing.go), VRead
--                      (socketsAPI.go).
--   Tcp.Send           handlePureAck, sendLoop, retransmitSegment (doTcp.go).
--   Tcp.Writer         VWrite and VClose (socketsAPI.go), sendFin (closing.go).
--   Tcp.Handshake      handshake.go and initBufs.
--   Tcp.Table, Tcp.Sockets, Tcp.Dispatch  the socket table, the socket calls, HandleTCP.
--   Tcp.Segments       sendTCP and the start of HandleTCP, with pkg/protocol/iptcp_utils.go, over the
--                      record TcpLib for netstack, and a segment on its way through two IP layers.
--   Tcp.Stream, Tcp.Transfer  the byte stream of one direction, and both of its ends.
--
-- Tls models pkg/tlsStack:
--   Tls.Bytes        getNonce of doTls.go.
--   Tls.Transport    what the layer needs of a TCP connection, as an interface: Transport has VRead and
--                    VWrite, Delivers the laws of a connection that delivers up to a limit, which may cut
--                    reads and writes short. ReadFull and WriteFull of doTls.go are over it.
--   Tls.Messages     messages.go. Tls.Crypto: crypto.go, over the record Crypto, which stands for
--                    X25519, Ed25519, SHA-256, HKDF and AES-GCM of Go's libraries; IsSound is what they
--                    document of honest use, and no more.
--   Tls.OverTcp      VRead and VWrite of Tcp as such a connection, while what is written stays in the send
--                    buffer, whose size is the limit of what can be written, and segments come in order
--                    and fit into the receive buffer.
--   Tls.KeyExchange  handshake.go: HandleUserKeyExchange and HandleServerKeyExchange.
--   Tls.Records      VTLSWrite and VTLSRead of tlsApi.go. An error of the code is none.
--
-- Tests runs the code on small inputs; fresh TCP connections, toy cryptography and the encodings of
-- IPv4 and TCP headers show that the interfaces can be met.
--
-- Every handler is one step, from a state to a state: the mutexes of the code make them so, where it
-- takes them. A Go panic (a slice out of range, a nil timer, a channel closed twice) is none. A call
-- that waits on a channel is a result of its own, with the state in which it waits. What a handler
-- sends is appended to the requests of its entry, in order. Times are arguments. The rounding of
-- float64 in the timeout is a parameter (Floats), of which only the bounds of the timeout, which hold
-- for any, are used.
--
-- Addresses are IPv4 addresses, as numbers. The switches and tickers of the IP layer are steps, in any
-- order. Whether a UDP socket can be opened is an argument of the initialization.
--
-- Loops run on fuel: VWrite on the number of bytes plus one, the draining of early arrivals on their
-- number plus one, the loop of sendLoop on any number beyond that of the unsent bytes. That these are
-- enough is part of the theorems about them. ReadFull and WriteFull run on the number of bytes plus
-- one, since each round moves one at least. LongestPrefixMatch calls itself on the next hop; its fuel
-- is the number of calls, of which two are enough where the next hops are on interfaces, and no number
-- where a row is its own next hop.
--
-- The code compares sequence numbers with < and does not wrap. The theorems about the sending side
-- therefore suppose that the numbers in use stay below 2 ^ 32 (Sending in Tcp/Send/Window.antt). Its
-- steps over time (Step in Tcp/Transfer.antt) leave out the acknowledgments inside a segment, with which
-- the code does not send the right bytes again, and what follows a FIN.
--
-- Not modelled: the text of the configuration, whose parser comes with the course and stands on
-- bufio and fmt; the consoles (tcpRepl.go, tlsRepl.go, replAndPrint.go) and the start of the processes
-- in cmd, which are input, output and printing; the UDP sockets; random numbers, which are arguments.
pub mod Prelude
pub mod Tcp
pub mod Ip
pub mod Rip
pub mod Tls
pub mod Tests
