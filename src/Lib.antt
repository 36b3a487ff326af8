-- ===== src/Lib.antt =====
-- Go library of proxy protocols: the parts that decide, separated from the sockets they serve.
--
-- Congestion/RingBuffer.antt is protocol/tuic/congestion/bbr/ringbuffer.go, the array-backed queue
-- under the BBR sampler. A slice is a list, a position a natural number, a panic `none`; the laws
-- compare each operation with the list of live elements.
-- Congestion/WindowedFilter.antt and Congestion/PacketQueue.antt are windowed_filter.go and
-- packet_number_indexed_queue.go beside it, the second over the ring buffer. The filter's comparator
-- is a parameter; a packet number is kept as one more than itself, 0 for the invalid one.
-- Congestion/Sampler/ is bandwidth_sampler.go and bandwidth.go: Tracker.antt is the
-- `maxAckHeightTracker` over the windowed filter, Points.antt `recentAckPoints` and `chooseA0Point`
-- over the ring buffer, Records.antt and State.antt the sampler over the packet queue,
-- Ack.antt and Event.antt `onPacketAcknowledged` and `OnCongestionEvent`. Congestion/Words.antt is
-- the 64-bit arithmetic, signed numbers in two's complement, and the arithmetic on times. The product with the threshold in
-- `float64` is the parameter `scaled`.
-- Congestion/Pacer.antt is protocol/tuic/congestion/common/pacer.go, the token bucket.
-- Congestion/Brutal.antt is congestion/brutal/brutal.go, the sender at a fixed rate, on the pacer.
-- Congestion/Sender/ is bbr_sender.go, on the sampler, the filter and the pacer: Records.antt its
-- types, Windows.antt the estimates and windows, Modes.antt the state machine, Event.antt the calls
-- that quic-go makes, `OnCongestionEventEx` among them. Reach.antt has the states that any calls
-- reach; Control.antt, Gains.antt, Keeps.antt, Limits.antt and Sees.antt say what the parts of an
-- event keep. float64 products and the constants of quic-go are the parameter `Platform`.
-- StickyIp.antt is dialer/stickyip/stickyip.go up to `IncrementCheckCycle`: the cache of working
-- proxy addresses. The Go map is an association list (StickyIp/Map.antt), time a number of
-- nanoseconds that each call takes, a method the sequence of its critical sections.
-- Tuic/ is protocol/tuic: Address.antt, Command.antt and Packet.antt are the writers and readers of
-- protocol.go and packet_parse.go, over lists of bytes (Wire.antt); Fragment.antt is frag.go, which
-- cuts a packet and reassembles it. `netip` is the parameter `addr_port`.
-- Tuic/Bucket.antt is the `deFraggerBucket` of packet.go, which keeps many reassemblers.
-- ClientRing.antt is protocol/infra/clientring/clientring.go: the ring of clients that a dial of
-- tuic or juicity walks. An element of the `list.List` is a number that is never used twice; the
-- client's dial, the context and `IsFailoverError` are parameters. Its fuel is one more than the
-- length of the ring, and a dial is proved to end on it.
-- Hysteria2/Frag.antt is protocol/hysteria2/internal/frag/frag.go with the sizes of
-- internal/protocol/proxy.go. A message is a pointer there, so it carries its identity, and each
-- call returns the buffers that it released. `quicvarint.Len` is the parameter `varint_len`.
-- Hysteria2/Message.antt is the UDP message format of the same proxy.go, Hysteria2/Tcp/ its TCP
-- request and response: Write.antt and Read.antt, `quicvarint` and the padding as parameters.
-- Hysteria2/PortUnion.antt is the parser and the normal form of port ranges of
-- protocol/hysteria2/udphop/addr.go.
-- Trojan.antt is the address format of protocol/trojanc/addr.go; the text form of IP addresses, of
-- `net`, is the parameters `to4`, `to16` and `ip_string`.
-- Fragment/ holds what both reassemblers use: lists of slots and lists of chunks.
--
-- Bounds: bytes are natural numbers, a counter that is a `uint8`, `uint16` or `uint64` in the code
-- is reduced by `%` where it is written. The loops that cut a payload run on fuel, its length,
-- which is enough as every round takes a byte; the loops that pop a queue run on the number of its
-- slots or candidates, and `reclaim` on its capacity.
--
-- Not modelled: sockets, TLS, QUIC and the cryptographic libraries, the buffer pool (but for the
-- ownership in Hysteria2/Frag.antt), locks, logs, the second BBR of
-- congestion/bbr3, and the dialers that wire the protocols together.
pub mod ClientRing
pub mod Congestion
pub mod Fragment
pub mod Hysteria2
pub mod Prelude
pub mod StickyIp
pub mod Trojan
pub mod Tuic
pub mod Wire
