-- ===== src/Lib.antt =====
-- Commeatus, a policy-routing proxy. Every inbound (SOCKS5, HTTP CONNECT, transparent) turns a
-- connection or a datagram into a canonical flow; the policy engine decides the flow; the plan that
-- comes out routes it, directly or to a proxy, or rejects it.
--
-- Text, bytes and addresses, as the program uses the standard library:
--   Prelude: Booleans, lists, byte strings and bits. A string is the list of its UTF-8 bytes.
--   Text: trimming, case, splitting, lines, words between white space, numbers in
--     decimal and in network order, UTF-8.
--   Text/Hostname: the hostname check of crates/core/src/domain_set.rs (`normalize_domain`).
--   Ip, Ip/Parse: `IpAddr` as its number, and its parser.
--   Io: `io::Result` with the kinds of error that the daemon tells apart; messages are left out.
--
-- crates/core/src, the pure core:
--   Cidr: cidr.rs. A network is its number and the length of its prefix. Shifts drop the bits that
--     leave the word. `u8` prefixes are read by the parser, which stops at 255.
--   DomainSet: domain_set.rs. `sort_unstable` is a sort by insertion, since equal strings cannot be
--     told apart; `binary_search_by` is the library's halving. The halving runs on fuel, the list's
--     length, and the loop over a name's suffixes on fuel, one more than the name's length: the
--     results below are equations without a case for spent fuel, so the fuel is enough.
--   Flow, Plan: flow.rs, plan.rs and the tiers of policy.rs.
--   Policy: policy.rs and runtime.rs. `sort_by_key` is stable, and is a stable insertion.
--
-- crates/daemon/src:
--   Target: proxy.rs (`Target::new`), and the address form that three codecs share.
--   Trojan: trojan.rs, the requests and the UDP frames. Indexing stands behind the length checks
--     that the code makes first.
--   Stream: the byte streams of the handshakes: what is yet to be read, the error behind it, what was
--     written. A read that finds too little fails and leaves nothing.
--   Socks5: socks5.rs, the datagrams of an association (`parse_udp_request`,
--     `encode_udp_response`) and `connect_error_code`.
--   Socks5/Handshake: socks5.rs, the greeting, the request, the replies and `handle_connect`.
--   Socks5/Associate: socks5.rs, the loop of `handle_udp_associate` as its reactions to what the poll
--     reports, in any order: a datagram at the relay socket, a datagram on a path, room at the relay
--     socket. What `send_to` gives is an argument; `flush_pending_client_replies` runs on the results
--     of its calls.
--   Protocol: protocol.rs, the SOCKS5 and Trojan handshakes; Protocol/Http, the HTTP CONNECT one, where
--     the standard library's text of an address is a parameter.
--   TrojanDatagram: trojan_datagram.rs, what is sent (`enqueue`, `drain_pending`) and the frames that
--     arrive (`take_frame`). `drain_pending` runs on the results of `write_plaintext`, call by call; a
--     call takes at most what it is given. TrojanDatagram/Receiving has the association as a whole,
--     with the plaintext that TLS is yet to give; a step that gives nothing waits for the result of
--     another call.
--   Outbound: outbound.rs, the registry. Sessions and datagram paths are of any types.
--   HttpConnect: http_connect.rs (`parse_authority`, `parse_port`). HttpConnect/Header has the reading of
--     the header, call by call, with what each call takes as an argument; a call takes a byte at
--     least, so the limit on the header is fuel enough for the loop, and one more. HttpConnect/Handle
--     is `handle`; connecting is a parameter, and what is relayed is a byte stream.
--   Proxy: proxy.rs, flows for targets, resolution and the direct connector. A time is in nanoseconds;
--     only the calls that wait take time.
--   Tokens: datagram.rs (`DatagramTokenAllocator`).
--   Datagram: datagram.rs, the interface of associations and `DatagramRouteSet`. The map is a list of
--     routes. `dyn DatagramExecution` is a record of operations on any type; the poll's registry and
--     the opening of a path are parameters. The allocator and the registry are kept with the
--     routes, since the callers pass the same ones on from call to call.
--   Datagram/Direct: datagram.rs (`DirectDatagramAssociation`), over any sockets.
--
--   Config: config.rs. The variables of the loop in `parse_config_at` are a record, and each directive
--     is a function on it; a line that is accepted is a step (Config/Steps). The operating system's
--     paths and files, the resolvers, the transports, SHA-224 and the handshakes are the fields of
--     a record of surroundings, which may be another at each reload. Of an error, the model has the
--     line. The key of a resolver is its address and its name in place of their text.
--   Transparent: transparent_udp.rs, the clients of a listener and their tokens. Transparent/Loop has
--     `handle_inbound` and what `serve_forever` does with each event, in any order; the socket, the
--     poll and the reply sockets are left out, so whether a reply was taken is part of the event.
--   Trojan/Verifier: trojan.rs (`TrojanVerifier::new`), over any digest.
--
-- crates/compat/src:
--   Blocklist: lib.rs, the compiler of block lists.
--
-- crates/dns/src:
--   Dns/Dot: dot.rs. A session is a byte stream; the connector is the function that gives what its
--     n-th call gives.
--   Dns/Hosts: lib.rs (`HostsTable`), the parser of hosts files and `merge`; the map is a list.
--   Dns: lib.rs (`DnsCache`). The map is a list of entries in the order in which it gives them;
--     times are nanoseconds without a bound. What the cache goes through is the list of the
--     operations done under its lock, in the order of the locking.
--   Dns/Answer, Dns/Engine: lib.rs (`DnsAnswer`, `DnsEngine::resolve`). A resolver is any function from names to
--     answers; one call of `resolve` is one step, with its counters. The lock is never poisoned.
--   Dns/Wire: wire.rs, names. A decoder is the state of the loop in `decode_name`, which runs on
--     fuel, 288 rounds: a pointer raises the hops, of which there are 32 at most, and a label raises
--     the decoded bytes, of which there are 253 at most.
--   Dns/Message: wire.rs, queries and responses.
--   Dns/Records, Dns/Aliases: wire.rs, the records of a response and the addresses that they give a
--     name. The set of accepted names is a list; a record's data is a range of the message. The
--     rounds over the aliases are counted down from 16, as in the code.
--
-- Not modelled: the transparent TCP inbound and the reply sockets of the UDP one, the server's threads
-- and signals, sockets, timers and the poll, the relays and TLS (a library), the probes of
-- crates/platform, the eBPF program, and the texts of errors.
pub mod Prelude
pub mod Text
pub mod Ip
pub mod Blocklist
pub mod Cidr
pub mod Config
pub mod Flow
pub mod Plan
pub mod DomainSet
pub mod Policy
pub mod Io
pub mod Target
pub mod Transparent
pub mod Trojan
pub mod Socks5
pub mod Dns
pub mod HttpConnect
pub mod Tokens
pub mod Tests
pub mod Datagram
pub mod Stream
pub mod TrojanDatagram
pub mod Outbound
pub mod Outcome
pub mod Protocol
pub mod Proxy
