-- ===== src/Lib.antt =====
-- tailcat-quic: tunnels between a server and its clients over authenticated HTTP/3, directly or by a
-- DERP relay. This library models the parts of the program that decide who is admitted, what an
-- admitted client may reach, and what is written on the wire.
--
-- A connection code (Address, Secret) gives a client the server's keys and a connection secret. The
-- client announces itself by an authenticated packet (H3; Disco has the legacy packets, which a server
-- discards). The server admits it (Backend.Admission), which may retire an old client
-- (Backend.Retire) through its lease (Lease). The engine then asks the peer policy (Backend.Policy)
-- for every packet, the packet filter and the handlers (Service) for every flow, and the SFTP service
-- (Sftp) for every file request; Login says whom the SSH server lets in. The command line (Cli)
-- decides what a server is configured to serve, and how a client's arguments become a connection; a
-- server's proxies resolve names by LocalDns.
--
-- Files and code:
-- - Secret, Secret/Hex: PresharedKey in tailcat.go, hexNodeKey in h3_streams.go.
-- - Disco: disco.go.
-- - H3: encodeH3Meow, isH3Meow and parseH3Meow in h3.go.
-- - Lease: h3ClientLease in h3_clients.go; Lease/Race: its atomic accesses in any interleaving.
-- - NetAddr: tcAddrForKey, pfxOf and the NAT64 mapping in tailcat.go, h3NodeAddress in h3_streams.go.
-- - Backend: locoBackend in tailcat.go; Backend/Retire: h3_clients.go; Backend/Admission: onMeow;
--   Backend/Bootstrap: the onDERPRecv set in startLocked; Backend/Policy: peerConfig, peerByIP,
--   peerForIP and the policy functions set in Start.
-- - Service: buildFilterLocked in tailcat.go; Service/Listeners: listen.go and Server.Close;
--   Service/Handlers: the flow handlers set in startLocked, and h3TCPHandler in h3_streams.go.
-- - Address: wire.go and the types of a connection code; Address/Wire: ConnInfo.Addr;
--   Address/Parse: parseWire and ParseAddr.
-- - Idle: idlePacketConn in tailcat.go. DerpMap: fetchDERPMap and decodeDERPMap in tailcat.go;
--   DerpMap/Region: Expand there, and the loop of PickBestRegion in pickregion.go.
-- - Sftp: tailcat_sftp.go (Sftp/State the session and the root, Sftp/Write Filewrite, Sftp/Command
--   Filecmd and setstat, Sftp/History any requests of a session).
-- - Cli: cmd/tailcat. Cli/Ports, Cli/Sets, Cli/Ranges: parsePortSet and portRanges; Cli/Serve: the checks
--   and callbacks of server; Cli/Names: tailcatAddrArg and validateDNSName; Cli/Ping: clientPingMode;
--   Cli/Socks: classifySOCKSAddr, dialSOCKSTarget; Cli/Forward: forward.go; Cli/Quote, Cli/Ssh: ssh.go;
--   Cli/Cp: cp.go. Cli/Quote/Shell is how OpenSSH and a shell read a command.
-- - Login: SSHConnHandler of tailcat_ssh.go; Login/Keys: tailcat_ssh_keys.go, and Login/Granted the keys
--   that a text lists. Cli/KeySources: cmd/tailcat/ssh_authorized_keys.go.
-- - LocalDns: internal/localhostdns. Text: what the program uses of strings, strconv and net's host and
--   port texts. Results: values or errors.
-- - Base: Boolean tests, lists, bytes and association lists. Keys: the third-party key types.
-- - Examples: keys of 32 bytes, and every property at a concrete input.
--
-- State is passed explicitly: an operation takes the state of its component and returns the new one,
-- with its result and, for onMeow, the calls that it makes into the engine. A map is an association
-- list, whose order stands for the order of an iteration. Times are nanoseconds, bytes and integers
-- natural numbers with their wrap-around written out. The outcomes of random sources and clocks are
-- arguments. Concurrency is modelled in two places: the accesses to a lease word are interleaved by a
-- schedule (Lease/Race), and session callbacks may run between the scan and the claim of a
-- retirement (Backend/Retire). The other operations hold a mutex for their whole length.
--
-- Most loops are a recursion on a list, on a schedule, or on the number of rounds that the code itself
-- fixes (pick_round has the 28232 rounds of pickUnusedPort). The retry loop of update is one access per
-- step of a schedule. Two loops take fuel: the ping loop has two rounds more than its timeout has
-- seconds, since a round takes a second at least, and the loop of the local DNS server one round more
-- than its input has bytes, since a round reads two.
--
-- Parameters, with their documented behaviour as laws: the key package (KeyCodec), HMAC-SHA-256
-- (Hmac, of which only the length of a tag is assumed), CBOR, base64 and fmt.Sprint (Encoding), net
-- and net/netip (Names), JSON and the answers of the map server (DerpMap), the netcheck, the
-- shuffle and the random choice (Outside; Intn stays below its argument), the two session states
-- that the code names (SessionStates), the answers of os.Root (Root), dnsmessage (Messages), and for
-- the command line the TXT lookup, $PATH, the parsing of IP addresses, SHA-256 and the network
-- (SshNames and arguments). The SSH keys have ParseAuthorizedKey, files and HTTP answers (Sources).
--
-- Not modelled: TLS and QUIC (newH3Factory), the startup of a server or client, the measurements of
-- netcheck, SSH sessions, key generation and the rest of the command line, the browser build and the
-- tools. They are input and output, configuration of third-party code, or left for a later
-- extension. What filter.New makes of the matches is third-party code: the theorems say what the
-- matches name.
pub mod Base
pub mod Keys
pub mod Secret
pub mod Disco
pub mod H3
pub mod Lease
pub mod NetAddr
pub mod Backend
pub mod Sftp
pub mod Service
pub mod Address
pub mod Idle
pub mod DerpMap
pub mod Cli
pub mod Examples
pub mod LocalDns
pub mod Login
pub mod Results
pub mod Text
