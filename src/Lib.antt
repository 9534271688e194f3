-- ===== src/Lib.antt =====
-- Rockets: an HTTP and WebSocket server and client on libwebsockets, with JSON-RPC 2.0 on top.
--
-- The program's parts, and the modules that model them:
--
-- * Http models rockets/http. Http/Registry and Http/FuncMap are registry.cpp: the endpoints of each
--   method, in maps whose order is the search order of `findEndpoint`; Http/RegistryJson is `toJson`.
--   Http/Connection is connection.cpp: a record with the members of `Connection` and a function for
--   each of its operations. Http/Channel is the server's half of channel.cpp, Http/ClientChannel
--   the client's, and Http/Decimal the length that it writes. Http/Handler is
--   connectionHandler.cpp: `route` and `generate_response` are `_generateResponse`, which asks the
--   registry and calls a REST function; `write_response` is what a write callback of the server runs.
--   Http/Client is client.cpp with requestHandler.cpp: the table of a client's requests and the callbacks
--   of libwebsockets.
--   Http/Types and Http/Code are types.h, cors.h, request.h, response.h, utils.cpp and helpers.h.
-- * JsonRpc models rockets/jsonrpc. JsonRpc/Message is response.h, utils.h, helpers.cpp and notifier.cpp;
--   JsonRpc/Processor is requestProcessor.cpp; JsonRpc/Receiver is receiver.h, receiver.cpp and
--   receiverImpl.h, which run a processor over the application's methods; JsonRpc/Requester is
--   requester.cpp, the client's side, with the table of callbacks that wait for a response, and
--   JsonRpc/ClientRequest its templates over promises, with clientRequest.h and clientRequest.cpp;
--   JsonRpc/Cancellable is cancellableReceiverImpl.h: the table of requests in work. A thread or a
--   cancellation that holds its mutex is the argument `locked` of `respond_to_request`; Cancellable/Runs
--   lets starts, responses and cancellations follow each other in any order. JsonRpc/CancellableReceiver is
--   the rest of that file: the dispatch on the method, and the progress of an action.
--   JsonRpc/AsyncReceiver is asyncReceiver.h, asyncReceiver.cpp and asyncReceiverImpl.h; JsonRpc/OverHttp
--   is http.h, http.cpp and client.h.
-- * Ws models rockets/ws. Ws/Connection is connection.cpp with channel.cpp: the queue of outgoing
--   messages; Ws/MessageHandler is messageHandler.cpp, which puts fragments together, calls the
--   application and sends what it responds to the connections; Ws/Client is client.cpp.
-- * Poll models pollDescriptors.cpp: the sockets of libwebsockets and the listener of the application.
-- * Server models server.cpp: its state is a record with the members of `Server::Impl`, over the
--   connection handler of Http/Handler, the message handler of Ws/MessageHandler and the descriptors of
--   Poll. Server/Protocols is its two callbacks of libwebsockets; Server/Steps lets these and the calls
--   of the application follow each other in any order.
-- * Uri models utils.cpp: the parts of a URI and the network interfaces. ClientContext models
--   clientContext.cpp: what a client hands to libwebsockets to start a connection.
-- * ServiceThreads models serviceThreadPool.cpp: the steps of one service thread and of the threads that
--   broadcast, in any order. Two rounds of the thread's loop are enough where they are counted: the
--   first asks for the write callback, the second serves it.
-- * Prelude holds what these share: byte strings, association maps, exceptions as values and actions on
--   a state that may throw. The modules whose names end in Examples are tests, those of JSON-RPC over the
--   small JSON library of Json/Toy.
--
-- State is passed along explicitly. A function of the source that may throw gives a `Result`, or an
-- `Act`, which keeps the state that was written before the throw. The virtual members of
-- `RequestProcessor` are parameters of JsonRpc/Processor, which JsonRpc/Receiver gives. `size_t` has 64
-- bits and `int` 32; ids and lengths are natural numbers with the wrap-around written out. All loops are
-- structural recursion on a list or a text, so no fuel is needed. `std::map` is an association list:
-- sorted where the order of iteration matters (Http/FuncMap), else of any order (Prelude/Assoc).
--
-- Code outside the repository is a parameter. Json.JsonLib is the JSON library of rockets/json.hpp
-- with the laws Json.JsonLaws that the program relies on: a value that was built has the parts that it
-- was built of, and a text that parses is UTF-8. That `dump` throws for other strings is modelled
-- where a request or a notification is sent and where a text is no JSON (JsonRpc/Requester,
-- JsonRpc/Message, JsonRpc/Processor); the other texts of the application are taken to be UTF-8.
-- Http.Lws and the record `Lws` of Ws/Types are the calls to libwebsockets. REST functions and methods
-- of receivers are the application's. Callbacks of Ws/MessageHandler are taken not to throw, and a
-- REST function is a function of its request.
--
-- Not modelled: serverContext.cpp and the set-up of clientContext.cpp, which fill in structures of
-- libwebsockets, the mutexes (each operation runs alone, but for ServiceThreads), the waiting for a
-- std::future, jsonrpc/server.h, logging, the Qt integration, the applications.
pub mod Prelude
pub mod Json
pub mod Http
pub mod JsonRpc
pub mod Ws
pub mod Poll
pub mod Uri
pub mod ClientContext
pub mod Server
pub mod ServiceThreads
