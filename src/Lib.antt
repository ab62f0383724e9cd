-- ===== src/Lib.antt =====
-- nicenet, a small C++ network library: length-prefixed messages over TCP and over KCP, a signed
-- handshake, and an HTTP server.
--
-- A program puts structs into messages (Message.h) and sends them through a session. A session
-- queues what it sends (Tcp.cpp, doSend) and cuts what it reads into messages again (parseMsg),
-- which the main loop hands to the command of their number (handleMessage). A connection becomes a
-- session by a handshake with the keys of both sides (Server.cpp, Tcp.cpp); the server keeps one
-- session for each client's key. Kcp.cpp does the same over datagrams. HttpServer.cpp reads
-- requests with the parser of HttpParser.hpp.
--
-- Files:
--   Common      lists, tests, words, the results of code that can fault, tables and texts
--   Message     Message.h: the buffer with its two offsets; Message/Codec: operator <<, >>, toMsg
--   Framing     Tcp.cpp: TcpSession::parseMsg, by the three forms in which m_PreMsg holds a front;
--               doRead, one read after another (Framing/Reading)
--   Sending     Tcp.cpp: both TcpSession::doSend and the handlers of their writes
--   Transfer    Tcp.cpp: from the doSend of one session to the doRead of another
--   Sessions    Tcp.cpp: addSession, removeSession, close, removeSelfImpl on a store of sessions
--   Handshake   Tcp.cpp: TcpSessionS::init, init2, TcpSessionC::init, checkServerSign
--   Keys        Server.cpp: the key pair and its text form
--   Kcp         Kcp.cpp: datagrams in and out, doRead, doPing, kcpUpdate; parseMsg is Framing's;
--               Kcp/Inputs: for which session ikcp_input gets the data of a datagram;
--               Kcp/Server: the waiting sessions, m_sessions and the running sessions of each
--               worker, with what the loops post to one another; Kcp/Login: KcpSessionS::init,
--               KcpSessionC::init and its checkServerSign
--   Commands    Tcp.cpp, Kcp.cpp: handleMessage
--   Http        HttpParser.hpp: HttpRequestParser, one function for each group of states (Request);
--               HttpResponseParser and HttpResponseBase::inspect (Response); UrlParser (Url);
--               HttpServer.cpp: what a connection does with a read (Connection)
--               and how it sends what is written (Replies)
--   Text        Common.hpp: splitString, StrCaseCmp
--   Integers    Type.h: StoreUInt, OperUInt
-- A function of the source has a definition of its name in lower case with underscores; a class's
-- fields are a record. Each component's theorems are in its folder, with its Examples at concrete
-- values.
--
-- Bytes are natural numbers, and a machine word keeps its wrap-around written out. Memory is
-- little-endian, as Service.cpp demands, and unsigned long is taken as four bytes, which getSize
-- needs. A new block holds what the allocator left in it, a function that the definitions take.
-- An access through a null pointer or outside a block, back() of an empty vector, a length that a
-- container refuses and a division by zero are faults, the values of Common/Outcome. A block's size
-- is not bounded by the memory that a machine has.
--
-- The calls of parseMsg inside itself run on fuel, one unit for each nested call: a read has at most
-- as many messages as bytes, if none has the size 0, and the theorems name a number that is enough.
-- The loop of splitString runs on the length of the string and two more units, one for each piece.
-- A number is printed with at most 20 digits, enough for 64 bits. All other loops are structural.
--
-- Handlers run one after another, as asio's strands of one worker or of the main loop run them. A
-- function that is posted runs where the definitions say; what else may run before it is a step of
-- its own. In Kcp/Server the queues of the main loop and of the workers are lists, and any loop may
-- take the next turn. Session objects stand at numbers, which play the part of shared pointers.
-- sha3, micro-ecc's functions, what ikcp_recv and ikcp_check return, and what a new object of a
-- type holds before >> reads into it are parameters, with their documented behaviour as hypotheses
-- where a theorem needs it. A write's bytes are those that the buffer has when async_write is called.
--
-- Not modelled: the request's inspect, which only logs use; CopyablePtr, Initializable, Binary and
-- Code, which wrap a value; the table of HttpServer's handlers; sockets, timers, threads, signals, clock
-- and log (Service.cpp, Clock.cpp, Log.cpp); coroutines (Task.hpp); the wrappers of database clients
-- (Bson.hpp, Mongo.hpp, MongoAsync.hpp, Mysql.hpp), whose functions are calls of libraries that are
-- not here; the generator under proto, the tests and the benchmarks.
pub mod Common
pub mod Integers
pub mod Sessions
pub mod Sending
pub mod Message
pub mod Framing
pub mod Text
pub mod Http
pub mod Keys
pub mod Handshake
pub mod Kcp
pub mod Commands
pub mod Transfer
