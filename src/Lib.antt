-- ===== src/Lib.antt =====
-- AsyncRPC: a C++ framework for remote procedure calls over TCP, on fibers. This library models its
-- core as functions on explicit states, and states what they guarantee. A value in brackets is a file
-- of this library.
--
-- The wire. include/byte_array.h and src/byte_array.cc are the buffer: a linked list of memory nodes
-- of one size with a position and a size [ByteArray]; its children hold the loops [ByteArray/Walk], the
-- invariant [ByteArray/Invariant], addCapacity [ByteArray/Growth], write [ByteArray/Access], read,
-- setPosition and toString [ByteArray/Reading], the abstract view of the buffer as a sequence of bytes
-- [ByteArray/View], what it means that a writer appends bytes and a reader takes them
-- [ByteArray/Stream], and the pieces handed to readv and writev [ByteArray/Buffers]. The fixed-length,
-- varint, zigzag and string codecs of the same file are [Codec] with one child for each kind.
-- include/rpc/protocol.h is [Protocol], include/rpc/serializer.h is [Serializer], and the result of a
-- call of include/rpc/rpc.h is [RpcResult].
--
-- The calls. src/rpc/rpc_server.cc and include/rpc/rpc_server.h are [RpcServer]: a method is a function
-- from the serializer of the reply and the bytes of the arguments to the serializer behind the write;
-- the loop over a session's requests is [RpcServer/Serve]. src/rpc/rpc_client.cc and
-- include/rpc/rpc_client.h are [RpcClient]: the table of waiting calls with a channel for each, and the
-- receiving fiber. They meet in [RpcClient/Remote], where a call goes through both, and in
-- [RpcServer/Subscribers], where a publication does. src/rpc/rpc_service_registry.cc is [Registry] with
-- the loop [Registry/Serve]: the services with their entries, the entries of each provider, and the
-- subscribers. src/rpc/rpc_connection_pool.cc is [ConnectionPool], which reads the registry's answers
-- and publications.
--
-- The runtime. src/timer.cc is [Timer], include/channel.h is [Channel], the queue of tasks of
-- src/scheduler.cc is [Scheduler] with the rounds of Run [Scheduler/Rounds], src/fd_manager.cc is [FdManager], the loops of src/stream.cc are
-- [FixSize], and include/rpc/route_strategy.h is [Route]. src/io_manager.cc is [IoManager]: the
-- context of a descriptor, its registered events [IoManager/Events], and a pass of the event loop
-- [IoManager/Loop]. src/address.cc is [Address]: IPv4 and IPv6 addresses, the order of addresses
-- [Address/Order], and how a host is divided into node and service [Address/Lookup]. src/mutex.cc's
-- CoMutex is [CoMutex], a relation of steps, in which a push with the suspension behind it is one
-- step, and so is an unlock with the submission of the fiber; its CoCondVar is [CoCondVar], and its
-- CoSemaphore [CoSemaphore]. src/fiber.cc is [Fiber], and
-- src/hook.cc is [Hook] with the hooks on descriptors [Hook/Options]. src/log.cc is [Log] with the
-- loggers [Log/Loggers]. src/socket_stream.cc and src/rpc/rpc_session.cc are [Session], which reads
-- and writes through the pieces of [ByteArray/Scatter]. [Base] holds what the parts share:
-- tests on numbers, lists, tables by key, results, bit operations and signed numbers. [Tests]
-- applies each theorem below to a concrete input.
--
-- How the code is modelled. A function of the model has the name of the C++ one in lower case, with
-- underscores. An object that is changed is passed in and returned. A result is `ok`, or an error
-- that says how the run ends: a null pointer or an index out of bounds, which are undefined
-- behaviour in C++, an exception, or a failed assertion. A w-bit integer is a number below 2 ^ w
-- with its wrap-around written out, and a signed one is its bit pattern. A pointer to a node of the
-- buffer is the index of the node, and a fresh node has arbitrary bytes, which are a parameter;
-- timers and contexts have addresses. The host's byte order is a parameter of the codecs. Sizes of
-- a buffer are taken to stay below 2 ^ 53, where the double in addCapacity is exact. A session, a
-- callback and a channel of a call are known by an identity; whether a weak pointer still leads to
-- a connected session, and the results of epoll_ctl are arguments.
-- The clock, rand(), the hash of the host's address, the allocator's addresses and the system calls
-- on descriptors are arguments. Code under a mutex is one step; the channel is a sequence of such
-- steps in any order, and getFdContext, which takes two locks, is two of them.
--
-- Fuel. transfer in [FixSize] runs on fuel, and more fuel than the length is enough on a stream that
-- moves a byte in every round; [Session] passes fuel on to it. The loops of [Hook] that call a system
-- call again run on fuel, of which no amount is enough for every system. log goes to a logger and from there to the root logger, never further. Every other loop
-- ends by recursion on a list or on the number of groups of a varint: five rounds for 32 bits and ten
-- for 64, as in the code.
--
-- Not modelled: destructors, the release of memory and allocations that fail, which for a text in a
-- message read from outside can be as large as the message says; the file of readFromFile, and toHexString;
-- the formatting of printf and the macros of logging; threads and the wrappers of system calls in
-- src/socket.cc; the machine's switch of contexts, which [Fiber] takes as a change of the running
-- fiber; the wrappers of pthread locks; the connects and timers around the
-- server, the client and the pool, and the pool's choice of a connection; in src/address.cc the calls
-- of the resolver, and Unix addresses. The channels of [RpcClient] do not block: what they took is a
-- list.
pub mod Base
pub mod ByteArray
pub mod Codec
pub mod Protocol
pub mod Serializer
pub mod RpcResult
pub mod RpcServer
pub mod RpcClient
pub mod Route
pub mod FdManager
pub mod Timer
pub mod Channel
pub mod Scheduler
pub mod FixSize
pub mod CoMutex
pub mod CoCondVar
pub mod CoSemaphore
pub mod Log
pub mod Hook
pub mod Session
pub mod Fiber
pub mod IoManager
pub mod Address
pub mod Registry
pub mod ConnectionPool
pub mod Tests
