-- ===== src/Lib.antt =====
-- anyproxy: a proxy for HTTP, SOCKS5 and plain TCP, which passes its clients on directly, by another
-- proxy, or over a websocket to another instance behind a firewall.
--
-- A connection is read by the buffered reader (proto/tcp); its first bytes choose the stream
-- (proto/http.go, proto/socks5.go), which finds the target; the tunnel (proto/tunnel.go) connects the
-- target by the configuration (utils/conf), the DNS cache (utils/cache) and the counters
-- (proto/stats), and names it to another instance encrypted (crypto). The hubs of nat/ pass messages
-- between requests and websocket clients.
--
-- Files:
-- - Base and its children: lists, maps, byte strings and numbers as the Go code uses them.
-- - Tools: utils/tools/string.go. Conf: utils/conf/router.go and config/config.go.
-- - Crypto: crypto/aes.go; the block cipher is a parameter whose documented laws are `IsCipher`.
-- - Cache: utils/cache/cache.go, `Lookup` is `lookup_host` and `Store` is `store_host`; the clock is
--   an argument.
-- - Stats: proto/stats; pointers to counters are places in a heap, and int64 wraps at 2 ^ 64.
-- - Header: proto/http/header.go; a Go map is a list of entries with one entry for a key.
-- - TcpReader: proto/tcp/reader.go; the connection is a script of arrivals, each with an error or
--   none, and reads behind its end give EOF.
-- - TextReader: proto/text/reader.go; `ReadHeader` is `read_header`, whose loop body is `header_step`.
--   Its children, with those of TcpReader, follow a line through the buffer: `IsSteady` is what filling
--   the buffer keeps of a connection, `Plain` one that fails as it likes, `Calm` one that sends all.
-- - Tunnel and Tunnel/Handshake: proto/tunnel.go, `handshake` and what it calls. A network `Env` says
--   how each dial ends, and the state `World` lists the dials made, the newest first.
-- - Tunnel/Copy: `copyBuffer` and `transfer`; `copy_round` is one round of the loop, and `run_turns`
--   takes the rounds of the two copies in any order. A connection is used again with `buf`.
-- - Http and Http/Request: proto/http.go; net/url and base64 are parameters.
-- - Request: proto/request.go, proto/client.go, proto/server.go and proto/keep.go; `pick_stream` tries
--   the streams, and a handler gives the request that it would answer, or its error.
-- - Socks: proto/socks5.go. Nat: nat/message.go and the hubs nat/bridge_hub.go and nat/client_hub.go;
--   an event of a hub is a round of `run`, and a broadcast carries the order in which the runtime
--   traverses the map. A panic is `none`.
-- - Response: the `response` of each stream (proto/http.go, proto/socks5.go, proto/stream.go,
--   proto/tcpcopy.go, proto/websocket.go), up to the transfer; writes to the server succeed.
-- - Nat/Auth: nat/conn.go and nat/handler.go; `serve_ws` answers the messages of `connect_once`, the
--   hash is a parameter, and an int64 is its bit pattern.
-- - Nat/Pump: nat/bridge.go, the read pumps of nat/client.go and the messages of proto/websocket.go;
--   a dial of the local proxy is an argument.
-- - Grace: grace/conn.go and grace/server.go; `activeConn` is a flag of each connection.
-- - Tests: the theorems at concrete inputs.
--
-- Fuel: the loops of `read_slice` and `peek` have two rounds more than the buffer has bytes, since
-- each round fills at least one byte or ends; `fill` has its own bound of 100 rounds; the print of a
-- number `n` has `n + 1` rounds, each of which divides by ten.
--
-- The parts of a line and the lines of a header are at most as many as the bytes that the reader has
-- still to hand out, which is the fuel of `read_slice_parts` and `header_loop`; the loop of
-- `Bridge.CopyBuffer` has as many rounds as there are bytes and arrivals left, and one more.
--
-- A round of a copy is one step: what another goroutine does while a read or a write waits comes before
-- or behind it. A shutdown that runs out of rounds counts as forced, as its timer ends it.
--
-- Not modelled: deadlines, pings and the coding of messages on a websocket (nat/client.go,
-- nat/message.go), the original destination of a redirected connection (proto/stream_addr.go), the
-- sockets and signals of the graceful restart (grace), and logging, daemons, flags and files, which are
-- input and output.
pub mod Base
pub mod Tools
pub mod Crypto
pub mod Cache
pub mod Stats
pub mod Grace
pub mod Header
pub mod TcpReader
pub mod Conf
pub mod TextReader
pub mod Tunnel
pub mod Nat
pub mod Http
pub mod Request
pub mod Response
pub mod Socks
pub mod Tests
