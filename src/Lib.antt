-- ===== src/Lib.antt =====
-- IOCP-GameChatServer: a chat and game server on Windows I/O completion ports, with a console client.
--
-- The server's parts. Worker threads take completions from the port and hand them to a session; a
-- session writes received bytes to its ring, cuts packets off it, and passes them through the protocol
-- filter into the game's job queue. One game thread takes the jobs from the queue; it looks a packet's
-- handler up in the table of the player's state, and keeps the players and the rooms. The handlers
-- send through the sessions. An accept thread makes sessions, and shutdown closes them.
--
-- Which file models what; the source paths are those under IOCP-GameChatServer/IOCP-GameChatServer/,
-- and client/client.cpp.
--   RingBuffer        RingBuffer.h, RingBuffer.cpp: Write, Peek, Read, Has, Skip. RingBuffer/Arc and
--                     Contents lay bytes round the end of the storage; Queue compares with a queue.
--   Packet, Protocol  Packet.h, Packet.cpp, Protocol.h, Protocol.cpp: ids, IsValid, ProcessPacket.
--   State             the classes Session, GameJob, Player, Room and GameServer as records, and the
--                     world in which their functions run.
--   JobQueue          GameJobQueue.cpp, and the Enqueue functions of GameServer.cpp.
--   Session           Session.cpp without the receive loop: RequestClose, Close, SendPacket, PostSend,
--                     PostRecv, OnSendComplete, TryBeginDestroy. Session/Growth is about the queue, which
--                     a session's functions only lengthen.
--   Receive           Session::OnRecvComplete. Receive/Frames says what packets a byte stream holds,
--                     Split that this does not depend on how it is cut, Loop that the loop finds them.
--   Wire, Client      the byte layouts of GameServer.cpp (Writer) and Player.cpp (SendChat), and the
--                     client's encoders and decoders (SendPacket to ParseServerChat).
--   Client/Text       the client's Trim, and which command a typed line is; Client/Settings its
--                     AskString, AskInt and main's questions.
--   Client/Sockets    SendAll and RecvAll on a connection; Listening RecvThread, Console the loop of main.
--                     Sockets/Loops and Exact say what the loops do on a connection that stays up,
--                     Listening/Frames that RecvThread reads whole packets; Listening/Chats and
--                     Console/Delivered join the client to the server.
--   Room              Room.cpp and Player.cpp: Join, Leave, BroadcastChat, SendChat. Room/Members is
--                     about who is in a room, Broadcast about who gets a message.
--   Fsm, Dispatch     FSM.cpp, and OnPacket, OnSessionDisconnected and GameThreadLoop of GameServer.cpp.
--   Server            GameServer.cpp: connections, login, chat rooms and chat.
--   Lobby, Match      GameServer.cpp: HandleHello, HandleJoinRoom, AcquireGameRoom; HandleReady,
--                     TryStartGame. Lobby/Automatic is about the room that the server
--                     chooses, Lobby/Roster about the size of ROOM_STATE, Telling about whom it
--                     reaches, Leaving, Joining and Seating about a player who changes the
--                     room. Match/Start is about when a match starts, Layout and Spawns about the
--                     bytes that announce it.
--   Game              the pointers among players, rooms and maps, through every handler. Game/Plays is
--                     the same walk for what is said of the game alone, Capacity and Live use it;
--                     Game/Refusals is about the handlers' error paths.
--   Network           Network.cpp: the registry, the workers' completions, accepting, shutdown.
--                     Network/Steps puts all threads' steps into one relation; Safety, Wiring, Framing
--                     and Progress carry invariants through any run, by way of Game/Keeps and
--                     Receive/Keeps: what a handler's sends and changes keep, the handler keeps.
--                     Network/Beside is about the steps beside the game thread, Stopping about that
--                     thread's end, Registry about m_sessions, Players about the players' map, Farewell
--                     about what shutdown sends, Delivery about what the clients show of what was sent.
--   Network/Threads   StartWorkerThreads, StopWorkerThreads, AcceptThread, SignalStop, ConsoleHandler, and
--                     the start in main.
--   Tests             sample states, and runs on them.
--
-- How state is modelled. A function that changes state takes the world and returns it. The world holds
-- the sessions, the job queue and the game, and what the operating system does: whether the n-th WSASend
-- or WSARecv is taken (`accepts`), the tick counter (`ticks`), and the order in which the iteration over
-- an unordered map meets its entries (`visit`). These three are parameters: theorems hold for any, or
-- name what they need. Pointers are numbers; players and rooms lie at addresses that are given out in
-- order, and a deleted object is marked and keeps its contents.
--
-- Windows is known by parameters, too: in Client/Sockets a Winsock says what the n-th `send` and `recv`
-- return, and `Documented` what is documented of them; `create` answers CreateThread, `wait`
-- WaitForMultipleObjects, `accepted` accept. A flag that another thread writes is a function that gives
-- the value of its n-th read.
--
-- Bounds and fuel. Integers keep their wrap-around (`u16`, `u32`, `% 2 ^ 64`); an int32_t is its bit
-- pattern. The receive loop runs on fuel of the ring's stored bytes and one more: each round takes at
-- least the four bytes of a header off the ring. The loops of SendAll and RecvAll have fuel of the bytes
-- asked for and one more, and each round moves a byte; RecvThread takes at least a header off what comes
-- in with each round, so its bytes and one more are enough; a round of StopWorkerThreads waits for at
-- least one thread; the accept loop ends once `m_running` is read as false. The decimal digits of a 32-bit
-- id are at most ten.
--
-- What is not modelled. Console output as text, apart from the chat lines of the client: prompts and
-- notices are the constructors of a data type. The interleaving of two threads inside one function, since
-- every function here is one step. The calls that only set Windows up (WSAStartup, socket, bind, listen,
-- connect, the creation of the port), and the wait for a queued job on a condition variable. A worker's
-- loop is the sequence of its completions, without the notice that ends it. client/client.cs, which is in
-- another language. The step relation assumes that the kernel reports only operations that it holds, fewer
-- than 2 ^ 32 for a session, and that `new` gives a session memory in which no live session lies; that a
-- notice of PostQueuedCompletionStatus may find its session freed is not ruled out.
mod Prelude
pub mod RingBuffer
pub mod Packet
pub mod State
pub mod JobQueue
pub mod Session
pub mod Protocol
pub mod Receive
pub mod Wire
pub mod Client
pub mod Room
pub mod Fsm
pub mod Server
pub mod Lobby
pub mod Match
pub mod Dispatch
pub mod Network
pub mod Game
pub mod Tests
