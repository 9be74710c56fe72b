-- ===== src/Lib.antt =====
-- simpleSDN: a primary router reads packets from a tunnel and hands them to secondary routers over
-- UDP; secondary routers answer them or send them out by raw sockets. From stage 4 on the primary
-- router installs rules in the routers' flow tables by control messages (protocol 253), which it
-- sends again by timers until they are acknowledged.
--
-- Parts, files and what they model:
--   Base            lists, text and the words of a little-endian machine over native numbers
--   StdMap          std::map as an association list in the order of iteration, over the key's operator<;
--                   Tree is the search in a tree, for which the list stands where operator< is a
--                   strict order. The program also uses maps where it is none (octane_control, flow
--                   entries of both kinds): what std::map does there is undefined, and what the list
--                   gives is one answer
--   Octane          octane_control (network.h, network.cpp): its order and its bytes
--   Flow            flow_entry, flow_action (cRouter.cpp); Flow/Table is flow_table, Flow/Table/Rules
--                   what its operations leave for each packet, Flow/Table/Search the search in a tree,
--                   Flow/Table/Default the default rule and where operator< is no order
--   Packet          network.cpp and icmp_checksum.c: Checksum is checksum, Unpack the functions that
--                   read a packet, Edit those that change one, Build is buildIpPacket, Receive what
--                   recvMsg and recvMsgSafe leave in a buffer
--   Config          cRouter.cpp: Parser is parser, Entries is readConfigFile, Stages is stageEngine,
--                   nextConfig and stageToCase with the loop of main.cpp
--   Timers          timers/timers.cc: Timeval the time routines, Queue is EventQueue, Manager is Timers
--   Router          cRouter as the routers use it: Create is createOctaneMsg and
--                   createReverseOctaneMsg, Logging is icmpForward_log (RouterPrim.cpp), close and
--                   writeLogFile, Control the counting and dropping of control messages, Forward is
--                   packetDstCheck, icmpForward_secondRouter, tcpForward_secondRouter and
--                   octaneRulesController (RouterSecond.cpp)
--   Router/Second   the handlers of secondRouter_s2 with secondRouter and secondRouter_reqReg (Stage2),
--                   of secondRouter_s4 and _s5 (Plain) and _s6 (Ruled), RouterSecond.cpp; Ruled/Rules
--                   is about packets, Ruled/Install and Ruled/Pair about rules and their packets;
--                   Loop is a round of each loop, Counting and Served what the rounds do to the counts
--                   of control messages
--   Router/Primary  primaryRouter and primaryRouter_s2 (Stage2), _s4 and _s5 (Packets), _s6, _s7, _s9
--                   and _s10 (Stage6, Stage7, Stage9, Stage10), RouterPrim.cpp: Timing is the timers
--                   around select, Drain and Resend the loop over expired timers, Watch, Acked, Tunnel,
--                   Chained, Replies, Gated, Firing and Steps the messages that wait for an
--                   acknowledgement, through every step, Origin the packets behind them, Grant and
--                   Portal the captive portal, Message the packet of a control message;
--                   Loop is a round of each loop, Rounds, Makes, Refines and Idle its relation to the
--                   steps
--   Router/Round    a round of a loop without timers, and what a round keeps when its handlers do
--   Router/Chain    stage 7 of the primary router with two secondary routers
--   Router/Ping     stage 2 of both routers
--   Router/Handshake  a control message and its acknowledgement, between both routers of stage 6
--   Router/Launch   stage1 to stage10, primaryRouter_reg, primaryRouter_savePort and writeFile
--                   (RouterPrim.cpp) and the switch of main.cpp; Agree is about the routers' numbers
--   Examples        the theorems at concrete inputs
--
-- State is passed explicitly: a handler takes the state and the packet and returns the state and
-- what it sends. What the terminal shows is left out. An uninitialised variable is a parameter of
-- its function (stale, junk). A copy whose length the code takes from a packet and that leaves its
-- buffer is the result none, overrun or fault. Memory around a buffer is not modelled otherwise: a
-- single byte read beyond its end is 0, also in a checksum over a length that a packet claims, and
-- bytes written beyond it are left out, where the program would touch what lies there.
-- Addresses and ports of packets are words as they stand in memory; ints that count are natural
-- numbers, and only uint16_t and short wrap around.
--
-- Fuel: fold_loop of the checksum has the sum as fuel, as each round makes the sum smaller; decimal
-- text has one more round than the number; the loop of main needs one more round than there are
-- entries, as each round takes one; fire_expired takes one reading of the clock a round, and while
-- the clock stands still needs one more than there are timers, as each comes back two seconds later.
--
-- Not modelled: sockets, the tunnel and the opening of files, which are system calls; an error of
-- select, and which descriptors it finds ready, a parameter of a round; primaryRouter_s4_old, which
-- nothing calls; and the timers' C interface, which the routers do not use.
mod Base
pub mod StdMap
pub mod Octane
pub mod Flow
pub mod Packet
pub mod Config
pub mod Timers
pub mod Router
pub mod Examples
