-- ===== src/Lib.antt =====
-- A verification library for kcptun and udptun.
--
-- The repository builds four programs. `udpclient` and `udpserver` run package udptun, which carries
-- single UDP datagrams between a local relay and a target, sealed by a cipher. `client` and `server`
-- are kcptun, which tunnels TCP streams over KCP sessions. Both families can run over package rawtcp,
-- a packet connection that looks like TCP.
--
-- The files and the code that they model:
--   Prelude, Prelude/*     shared names; Go's maps (Dicts), slices of bytes (Bytes), `switch` on a
--                          string (Switch), results (Results), signed integers (Int)
--   Udptun/Codec           udptun/packet.go: Seal and Open; Codec/Frame and Codec/RoundTrip prove them
--   Udptun/Cipher          udptun/cipher.go: NewBlockCrypt
--   Udptun/Table           udptun/client.go: the client's flow table; Table/Search is the search for an
--                          id, Table/Valid the agreement of the maps, Table/Reap the removal of idle flows
--   Udptun/Client          udptun/client.go: localLoop, transportLoop and maintain, one pass each;
--                          Client/Relay, Client/Maintain and Client/Later prove them; Client/Steps is
--                          the interleaving of the goroutines, Client/Handlers the passes as such steps
--   Udptun/Supervisor      udptun/client.go: supervise and watchdog as steps; proofs in Supervisor/Safety
--   Udptun/FlowKey         udptun/server.go: flowKey, with strconv.FormatUint
--   Udptun/Server          udptun/server.go: RunServer, flowFor, pump, closeFlow, reap; Server/Sockets
--                          is the ownership of sockets, Server/Steps the interleaving of the goroutines,
--                          Server/Handlers the passes as such steps, Server/Later what they keep,
--                          Server/Serve the way of a datagram, Server/Reply that of a reply,
--                          Server/Reap the reaper
--   Udptun/Exchange        the client and the server together; Udptun/Conversation with anything else
--                          between a datagram and its reply
--   Udptun/Examples/*      the theorems at concrete inputs
--   Udptun/Bounds          how long the datagrams of both programs are; Bounds/Packets for one packet
--   Udptun/Start           udptun/packet.go, client.go, server.go: NewCodec, the calls on a transport,
--                          RunClient and RunServer up to their loops
--   Settings               udpclient/main.go, client/config.go: values given for flags, and the JSON file
--                          that all four programs may be given; Settings/Typed where a setting comes from
--   Udptun/Program         udpclient/main.go, udpclient/dial.go and udpserver/main.go: Program/Client and
--                          Program/Server are the two mains, Program/Interop compares them,
--                          Program/Sockets is the dial and the transports that are served,
--                          Program/Typed says where each setting comes from
--   Udptun/EndToEnd        both programs from their settings to a datagram that is answered
--   Udptun/OverTcp         the relays' packets over rawtcp connections
--   Udptun/KeepAlive       the client's ping and the server's answer
--   Kcptun/Config          client/main.go, client/config.go, server/main.go, server/config.go:
--                          Config/Client and Config/Server are the flags, what is read from them, and
--                          the modes; Config/Interop compares them, Config/Modes is the tuning of
--                          each mode, Config/Typed says where each setting comes from
--   Kcptun/Connect         client/main.go and client/dial.go: createConn and waitConn; proofs in
--                          Connect/Waiting
--   Kcptun/Serving         server/main.go: the listeners, the loop over sessions, handleMux
--   Kcptun/Tunnel          client/main.go and server/main.go: handleClient as steps; Tunnel/Faithful is
--                          what it delivers, Tunnel/Progress how it ends, with
--                          Tunnel/Count for how soon
--   Kcptun/Crypt           client/main.go and server/main.go: the choice of the cipher; Crypt/Interop
--                          compares it with udptun's
--   Kcptun/Sessions        client/main.go: the accept loop and the scavenger; Sessions/Pool and
--                          Sessions/Scavenged prove them; Sessions/Start is how they begin;
--                          Sessions/Life is both as steps that interleave, Life/Accounted where each session is, Life/Handing what a
--                          connection is given, Life/Closing that the scavenger closes what it gets
--   Kcptun/Snmp            client/main.go and server/main.go: snmpLogger; proofs in Snmp/Logged
--   Kcptun/CompStream      client/main.go and server/main.go: compStream
--   Kcptun/Agreement       a session of the client and one of the server, from their configurations
--   Kcptun/Signals         client/signal.go and server/signal.go: sigHandler
--   Kcptun/Examples/*      the theorems at concrete inputs
--   Rawtcp                 rawtcp/conn_linux.go: captureFlow and WriteTo on the flows of a connection;
--                          Rawtcp/Stream is one flow's numbers, Rawtcp/Receive the buffer of
--                          captureFlow, Rawtcp/Delivery two connections of which one writes,
--                          Rawtcp/Linked two that both write, Rawtcp/Handshake how they come to be linked
--   Rawtcp/Lifetime        cleaner, Close and the accept loop; Lifetime/Owner is who is delivered,
--                          Lifetime/Ending what they leave
--   Rawtcp/Open            Dial and Listen; Open/Failure is what they leave open
--   Rawtcp/Reader          ReadFrom, the deadlines, the option calls, Cleanup
--   Rawtcp/Options         setTTL, setMark, setDSCP, and SetDSCP over the handles
--   Rawtcp/Examples        the theorems at concrete inputs
--   Rawtcp/Stub            rawtcp/conn_stub.go
--
-- State is passed explicitly: a handler takes the time, what it received and how the writes ended, and
-- returns the new state and what it sent. Objects that the code shares through pointers live in a store
-- indexed by numbers. Times are nanoseconds and do not overflow. A `uint32` is a number below 2^32 with
-- its wrap-around written out.
--
-- Fuel: the search for a free flow id takes as many tries as the table has ids, and two more, which is
-- more than the ids that it can skip; no other loop takes fuel but the ten digits of a `uint32`.
--
-- Not modelled: third_party/kcp-go, smux, snappy, gopacket, the command line parser and the
-- operating system, which are parameters or inputs where the code calls them; logging, but for the
-- rate limit of warnings; and goroutine scheduling inside a critical section.
pub mod Prelude
pub mod Settings
pub mod Udptun
pub mod Kcptun
pub mod Rawtcp
