-- ===== src/Lib.antt =====
-- Quintses, a small networked game: a server with a physics thread, clients that are local or
-- connected by TCP, and the queues and messages between them.
--
-- The parts and their files. Paths are from the root of the repository.
--   Socket      core/util/socket.hpp: `readPod`, `writePod`, `readString`, `writeString` over the two
--               virtual functions of `SocketWrapper`. boost::asio is the parameter of the record
--               `SocketWrapper`; Socket/Reliable states its documented behaviour as `IsReliable`.
--   Bytes       the object representation of unsigned integers.
--   Messages    core/messages: the classes of messages with their type numbers, factories, `read`
--               and `write`; the files Wire hold the round trips.
--   Queue       core/util/queue.hpp: `locklessQueue` (Queue/Lockless) as threads that interleave at
--               each access to shared memory, and `lockedQueue` (Queue/Locked) as a monitor.
--   Server      server/localserver.cpp and .hpp: `LocalServer`. Each member function takes the state
--               and returns it with the calls it makes on other objects, in their order.
--   Xml         core/util/xml_helpers.hpp: `parseTransform` and `parseQuaternion`, where rapidxml is the
--               parameter `Dom` and glm and `float` are the parameter `Math`. Xml/Handles is the class
--               `XmlDom` of core/util/xml.hpp, with the counts that it allocates and frees.
--   World       server/localserver.cpp: `loadWorld` and `loadMobGroup` on the nodes of a `Dom`.
--   Serving     server/localserver.cpp: the constructor, `run` and `waitForTermination` as steps of the two
--               threads, of the calls of clients and of spurious wakeups in any order, with the handlers of
--               Server and World in them. The queue may hand out its messages in any order.
--   Lifecycle   client/opengl/glloader.cpp: the constructor, `run` and `finish` of a class that keeps a
--               thread, as steps of the two threads and spurious wakeups in any order.
--   Listener    qntsrv.cpp: the acceptor and the signal handler of the server.
--   PhysicsIface, Physics
--               core/physicsiface.hpp and server/bullet/btphysics.cpp: the calls of the server as
--               messages, and `parseMessage` on them. Physics/Stream joins the server to the engine.
--               Physics/Contract is the interface as a record of operations and laws, which `BtPhysics`
--               fills and Physics/Visit is about. Physics/Run is `run` with `updateCharacterObjects`; the
--               simulation of bullet is the parameter `Bullet`. Physics/Life puts the rounds between the
--               steps of Lifecycle, and Physics/Dangling is about messages of clients that have gone.
--   Render      client/opengl/glrender.cpp: the map of drawables; the calls of OpenGL are effects.
--   Network     server/remoteclient.cpp and client/remoteserver.cpp: the handlers at the two ends of a
--               connection; an exception that leaves a handler is an error result. Network/Startup is
--               how the remote server starts its thread and waits for it, Network/Steering goes from the
--               keys of a client through all parts to the engine, and Network/Closing from a server that
--               shuts down to its connections. Network/Contract is core/serveriface.hpp as a record of
--               operations and laws, which the local and the remote server fill.
--   Client      client/localclient.cpp and client/localclient_x11.cpp: `mainloop` and the keymap; the
--               events that X11 reports are an argument. Client/Platform is what `initializePlatform`
--               and `finalizePlatform` acquire and release, with those of the loader in
--               client/opengl/glloader_x11.cpp.
--   Audio       client/openal/streamingfile.cpp and streamingwav.cpp: `readHeaders` and the buffers that
--               `readyNextBuffer` fills; the calls of OpenAL are effects. Audio/Player is the loop of
--               client/openal/alaudio.cpp over the streams, between the steps of Lifecycle.
--   Programs    quintses.cpp, qntcli.cpp and qntsrv.cpp: the main functions. The first is the client's loop
--               and the server's threads, the last the server's threads with the signal, the watcher, the
--               connections and `io_service.run`. Programs/Remote is the second: the client's steps and
--               those of Network/Startup. Programs/Session is a client on any server of Network/Contract.
--   Common      association lists, texts, integers, Boolean tests and lemmas that the parts share.
--   Examples    the theorems of the list below at concrete inputs.
--
-- How they interact. Clients push messages to the server's queue; the server's thread handles them and
-- pushes messages to the queue of the physics thread; that thread drains its queue once a tick, calls
-- back into the server (`getClientId`, `runTickCallbacks`, `pushClientTransforms`), and the server
-- pushes to each client. A remote client writes these messages to its socket, the remote server at
-- the other end pushes them to the local client, and that one hands them to its renderer; the input of
-- the keys goes the other way.
--
-- Conventions. A `uint32_t` or `uint16_t` is a natural number, with `% 2 ^ w` where the code can wrap. A
-- pointer that serves as a key is its address. `std::map` and `std::set` are association lists in key
-- order. A matrix is the 64 bytes that it occupies. Undefined behaviour and exceptions are the values
-- of `Fault`.
--
-- Fuel. In Queue/Lockless/Order a `push` alone takes three steps, a `try_pop` alone at most five, and a
-- drain one more call than the queue has values. In World the loops of a mob group have more fuel than
-- columns and rows together, and the loop over the blockers more than there are nodes and one. The
-- theorems about them say that this fuel is enough. In Serving that fuel comes with the world file, and a
-- `loadWorld` that has too little counts as one that does not return. Nothing else runs on fuel.
--
-- Names. The theorems about the parameters take what they rely on as records: `IsReliable` of a socket,
-- `IsCounting` and `IsFloat` of the type `float`, `HasSiblings` of a document.
--
-- Not modelled: the vendored libraries (glew, glm, rapidxml) and the simulation of bullet, which are
-- parameters; what is drawn; OpenAL beyond its calls; the
-- registration of the signal handler and of the endpoint in the main functions; and calls of clients in
-- the middle of `loadWorld`, which is one step of the server's thread.
pub mod Common
pub mod Bytes
pub mod Socket
pub mod Messages
pub mod Queue
pub mod PhysicsIface
pub mod Server
pub mod Serving
pub mod Xml
pub mod World
pub mod Lifecycle
pub mod Listener
pub mod Physics
pub mod Render
pub mod Network
pub mod Client
pub mod Audio
pub mod Programs
pub mod Examples
