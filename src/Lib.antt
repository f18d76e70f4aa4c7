-- ===== src/Lib.antt =====
-- Verification of a Mastermind program in C++: its game server, its client, and the protocols between
-- them.
--
-- The parts, and how they interact. A client sends one UDP packet for each command: SNG starts a game,
-- DBG one with a given key, TRY sends an attempt and QUT gives up. The server's loop (server/Server.cpp)
-- takes a datagram, reads the packet identifier, and hands the rest to a handler
-- (server/commands/udp_commands.cpp). The handler decodes the packet (common/protocol/UDP), calls the
-- store (server/GameStore.cpp), and turns its result, or the exception that it throws, into the status
-- of a reply. The store keeps each game in a file: one line for the game, one for each attempt, and a
-- last line once the game has ended. Over TCP a client asks for its last game (STR) and the scoreboard
-- (SSB); a pool of threads (server/utils/WorkerPool.cpp) answers these connections. The client
-- (client/Client.cpp) reads a line, runs its command (client/commands), and keeps its own view of the
-- game (client/GameState.cpp): the trial number, the attempts and their pegs.
--
-- Files and sources:
-- - Constants: common/constants.hpp.
-- - Exceptions: common/exceptions, server/exceptions and client/exceptions. `Result` is what a call that
--   may throw comes to. `undefined_behaviour` is no exception: it marks where the source has none.
-- - Text: what the program uses of C++ streams: decimal numbers (Text.Decimal, whose printing has fuel
--   n + 1 for the number n, at least its number of digits), and words, numbers and lines by `>>` and
--   `std::getline` (Text.Words).
-- - Udp.Parser: common/protocol/UDP/Parser.cpp. A stream is what has been read and what is unread.
--   Parser.Reads has what parsing gives on printed text, Parser.Accepts what it lets through on any
--   bytes.
-- - Udp.Requests, Udp.Replies: common/protocol/UDP/udp.cpp and udp.hpp, `decode` and `encode` of each
--   class.
-- - Mastermind: `GameStore::calculateAttempt`, and in Mastermind.Pegs and Mastermind.Feedback its
--   specification.
-- - Store: the files as a record of three maps. Store.Records is the text of game files (`Game`,
--   `Attempt`), Store.Records.Sessions relates it to games as data. Store.Files is `endGame` and
--   `saveGameScore`. Store.Games is `checkTimedoutGame`, `createGame`, `quitGame`, `attempt` and
--   `generateKey`; its child modules treat them branch by branch, and Invariant, Sound and Preserved
--   all games together. Store.Reports is `parseGame`, `findLastFinishedGame` and `getLastGame`, and
--   Store.Reports.Scoreboard is `getScoreboard`; the other modules there treat games in progress
--   (Parsed), finished games (Finished, Latest), the order of files (Sorted) and the scoreboard (Board).
-- - Server.UdpCommands: server/commands/udp_commands.cpp. Server: one turn of `Server::runUdp`;
--   Server.Keeps and Server.Histories are about any datagram and any sequence of them.
-- - Server.TcpCommands: server/commands/tcp_commands.cpp. Server.Connections: `handleTcpCommand` and
--   `handleTcpConnection` of server/Server.cpp.
-- - Sockets: a descriptor with its limits. Server.Sockets and Client.Sockets: the classes of
--   server/sockets and client/sockets over what the system calls answer; Client.Sockets has the
--   TCP commands from their socket's side as well, and Client.Sockets.Closed is about what they leave open.
-- - Server.Loops: `runUdp` and `runTcp` of server/Server.cpp over lists of rounds; a run is as long as the
--   list that is given. Loops.Replies counts the replies, Loops.Connected and Loops.Closing follow the
--   connections to the pool and to the end of its threads.
-- - Config: server/utils/Config.cpp and client/utils/Config.cpp, over the options that `getopt` yields.
-- - Server.WorkerPool: server/utils/WorkerPool.cpp, a turn of a thread as a function, and interleavings
--   as an indexed data type. WorkerPool.Order follows the connections, WorkerPool.Ends the threads.
-- - Client.State: client/GameState.cpp, with what it prints; Client.Shown says where printing is defined,
--   Client.Moves how the operations change the memory, Client.Debug what debug mode leaves behind.
-- - Client.Input: the parsers of client/commands/udp_commands.cpp; Input.Accepts is about any line.
-- - Client.UdpSocket: `sendPacket` and `receivePacket` of client/sockets/UdpSocket.cpp, over what the
--   system calls answer, which is the record `Network`.
-- - Client.UdpCommands, Client.TcpCommands: client/commands. Client: `getNextCommand` and
--   `handleCommand` of client/Client.cpp.
-- - Play: the client against the server. Play.Network joins the client's socket to the server's loop,
--   Play.Rules states the rules of an attempt, Play.InStep what it means that both sides hold the same
--   game, Play.Starts, Play.Follows, Play.Quits and Play.Ends what the commands do to that, and
--   Play.Trials fetches a report over TCP.
-- - Transfer: common/utils.cpp, `safe_read` and `safe_write` over the answers of successive system calls;
--   Transfer.Whole asks for as many answers as bytes, since each moves one at least.
-- - Tcp: common/protocol/TCP. `safe_read` takes the next bytes of the connection whole (Transfer); what it
--   throws where there are too few is an argument. Tcp.Reports is about the replies that carry a file.
-- - Tests: concrete runs.
--
-- Choices. A command's time, the bytes of /dev/urandom, the texts that `std::localtime` and
-- `std::put_time` give (Store.Calendar) and which disk accesses succeed (Store.Disk) are arguments; the
-- calendar is assumed to print words without blanks, and where it is said no date with a T in front.
-- Theorems about `working` assume that the disk works. Times are below 2 ^ 31, since the source casts them to `int`. Unsigned numbers that only count
-- attempts or pegs stay below 9 and are natural numbers. All functions are structurally recursive, so
-- that every operation ends with a result.
--
-- The network between client and server is an argument of the client's handlers; Play instantiates it
-- by one that answers each datagram by a turn of the server's loop and loses nothing. A thread of the
-- pool waits exactly as long as the predicate of its `wait` is false.
--
-- Not modelled: logging, signals, `printHelp`, `printUsage` and the loops of `main`, which only print or
-- set the process up. Replies that cannot be sent are left out. Commands run one after the other:
-- UDP commands come from one loop, and TCP threads that report a game at the same time are left out.
mod Base
pub mod Constants
pub mod Exceptions
pub mod Text
pub mod Udp
pub mod Transfer
pub mod Tcp
pub mod Mastermind
pub mod Config
pub mod Sockets
pub mod Store
pub mod Server
pub mod Client
pub mod Play
mod Tests
