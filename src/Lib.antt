-- ===== src/Lib.antt =====
-- The programs of a computer networks course, as models with proofs.
--
-- project2, a reliable file transfer over UDP, is under Transfer:
--   Transfer/Util      project2/util.h, util.c: `between`, `map_to_window`, `mod`, `chksum`, `cksum`
--   Transfer/Checksum  laws of `chksum`
--   Transfer/Crc       project2/crc16.h: `calc_crc16`
--   Transfer/Queue     project2/fix_queue.h: `Enqueue`, `Dequeue`, `GetK`
--   Transfer/Packet    the packets that sendfile.c and recvfile.c write and read, and their round trips
--   Transfer/Receiver  project2/recvfile.c, the data loop of `main`: its variables are the record
--                      `Receiver`, one pass is `receive` with `acknowledge`, the loop is `run`; below
--                      it the window, the writes, the invariant and the reachable states
--   Transfer/Sender    project2/sendfile.c, the data loop of `main`: its globals and variables are the
--                      record `Sender`, one pass is `send_pass`; below it the cutting of the file, the
--                      invariant of the window, the sending loop, the acknowledgements, whole passes
--   Transfer/Handshake the file name's packet, in sendfile.c and recvfile.c, and its answer
--   Transfer/Link      what one program puts on the network, as the other takes it
--   Transfer/Channel   both data loops and the network between them as a step relation: everything that
--                      was sent may be lost, damaged, repeated or come late and out of order
-- The two meet in the packets: chunk number j of the file has the sequence number j modulo 16 and the
-- id j + 1, and the last chunk has type 4 (`chunk_packet`); the acknowledgement of the first m chunks
-- has the number m - 1 modulo 16. The network is the relation `Arrives` on the receiver's side: it
-- loses, damages, repeats and reorders, and a packet that it hands over is at most 7 chunks ahead of
-- the next chunk due, as the sender's packets are of what was acknowledged. On the sender's side it is
-- `AckArrives`: an acknowledgement that is later than the last one is of no fewer chunks, and of no
-- more than were sent. The times that a pass reads from the clock are arguments, and those of the
-- sender are free. What is said of whole transfers assumes that the receiver's clock has not stepped
-- back, and that its count of microseconds, which an acknowledgement carries in 32 bits, has not passed
-- a multiple of 2 ^ 32 (every 71.6 minutes) since the transfer began (`IsForward`): an old
-- acknowledgement could else pass for a new one.
--
-- project3, a distance vector router in a simulator, is under Routing:
--   Routing/Map        `std::map` from 16-bit keys as a list that ascends in its keys
--   Routing/State      project3/Port.h, global.h, and the members of RoutingProtocolImpl.h
--   Routing/Sweep      the loops that walk through `dv_map` and settle each entry by itself
--   Routing/Vector     project3/DVImpl.cc: `recvDV`, `sendDVUpdate`, `updateDVTable`
--   Routing/PingPong   project3/PingPongImpl.cc: `generatePingPongMsg`, `handlePingPong`
--   Routing/Refresh    project3/RoutingProtocolImpl.cc: `refreshDV`
--   Routing/Protocol   project3/RoutingProtocolImpl.cc and FwdDataImpl.cc: `init`, `handle_alarm`,
--                      `recv`, `recvDATA`
--   Routing/Consistency  the invariant of the tables and of the ports, handler by handler; Handlers
--                      has the entry points, and Handlers/Reach the states that they lead to
--   Routing/Starting   the calls that `init` makes
-- The router's calls of `Node::send` and `Node::set_alarm` are logged in its state, and `overruns` where
-- it builds an update of 16382 pairs or more: `dv_table_size` wraps around, the stores go past the buffer
-- (DVImpl.cc:150-164), and the simulator's `perform` faults there. The simulator's
-- clock is an argument of every handler and is not assumed to go forward.
--
-- The simulator that connects the routers, also of project3, is under Simulator:
--   Simulator          Simulator.cc, Event.cc, Node.cc, Link.cc and their headers: `dispatch` is the
--                      method of each event, `run_event` one round of the loop of `run`; the calls
--                      that a router logged become events in `perform`
--   Simulator/Ports    which port a packet arrives at
--   Simulator/Order    the loop as a step relation, and the clock in one round
--   Simulator/Text, Config, Setup  Simulator.cc, the reader of the configuration file, `init` and `trim`:
--                      `read_network`; and `main` up to `run`
--   Simulator/Wiring, Joined, Configured  what it hands to the run
--   Simulator/Cables, Progress, Starts, Goes  where the links lead, the set-up of the routers, and the
--                      rounds of a run; with Routing/Within, the ports that a router sends on
--   Simulator/Wire, Fitting  the packets that a router's handlers send
--   Simulator/Sound, Safety  the invariant of a whole network, and its handlers' faults
-- A step may take any event of least time, as the priority queue gives no order to these. What `rand`
-- draws and what an uninitialised cost holds are arguments of a step. Since `run` pops the queue after
-- the dispatch, a round that pushes an earlier event, whose time wrapped around, pops that one, and
-- `delete` leaves the event that was dispatched in the queue, freed: what the queue then compares is
-- undefined, and `none`. The file is the list of its
-- lines, each of which a newline ends; what `atof` makes of a text is an argument, `Decimals`.
--
-- project1, a ping-pong client and server over TCP and a web server, is under Echo and Web:
--   Echo/Sockets       the loops over `send` and `recv` of project1/client.c and web.c
--   Echo/Client        project1/client.c, and `validateUserInput` and `setTimeStamp` of util.c
--   Echo/Node          project1/util.c: `add`, `dump`, `serverSending`, `serverRecieving`; below it the
--                      list, and a message that comes in pieces
--   Echo/PingPong      one test of the client with the server's functions
--   Echo/Server        project1/server.c, the main loop: one pass is `turn`; below it the sets for
--                      `select` and the walk over the connections
--   Web                project1/web.c: one request is `process`; Web/Text has the functions of string.h
-- The server's pass calls Web's `process` in web mode. What the system calls return is an argument of
-- the pass, of the loop, or of the request's answer: a list of results, a function of the socket, or
-- the record `Files`.
--
-- Base has what all share: lists, bytes of a buffer with 16-bit and 32-bit loads and stores
-- (little-endian, as on the machine that `htons` swaps for), integers, membership.
--
-- Numbers are natural numbers with the wrap-around of `uint16_t` and `uint32_t` written out. A loop
-- over an array or a map recurses on what is left of it, so none needs fuel. `none` is what C and C++
-- leave undefined: an access outside an array, an erase of a missing entry, a NULL that is followed. A
-- load outside a packet that is too short for its header reads 0. The loops over `send` and `recv`
-- recurse on the results that they are given, and `waits` where these do not end the loop.
--
-- Not modelled: the set-up of sockets, the repetition of the file name's packet by the clock, the
-- sockets' kernel side, what project3's simulator prints, and
-- project1/name_addr.c, which only calls the library.
pub mod Base
pub mod Echo
pub mod Routing
pub mod Simulator
pub mod Transfer
pub mod Web
