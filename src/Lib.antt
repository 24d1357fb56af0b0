-- ===== src/Lib.antt =====
-- The core of a controller for serverless functions: the HTTP messages that it reads and writes,
-- the manifest of actions whose order of execution it chooses, the threads that run them in
-- subprocesses, and the parts of the controller that bring these together.
--
-- The parts and how they interact. A request is parsed by the stream operators of
-- controller-lib/src/application-servers/http/http-requests.cpp, chunk sizes are numbers of
-- controller-lib's HttpBigNum. The actions of a sequence are an ActionManifest of Relations
-- (controller/src/controller/app/action-manifest.cpp, action-relation.cpp): emplace fills it from
-- the parsed JSON, next picks the action to run. Each action is run by a ThreadControls
-- (controller/src/controller/app/thread-controls.cpp), whose thread_continue drives a subprocess
-- through its pipes and writes the value of the Relation that next reads again.
--
-- An ExecutionContext (controller/src/controller/app/execution-context.cpp) holds a manifest, a
-- thread for each action, and a table of the peers that run the same actions. The controller
-- (controller/src/controller/app/controller-app.cpp) hands execution indices to the threads of
-- ready actions, merges the results of peers, and sends its own as a stream of JSON objects. The
-- messages come to it by the queue of controller/src/controller/io/controller-io.hpp. A context has
-- a UUID (controller-lib/src/uuid/uuid.cpp).
--
-- The files.
-- - Prelude and the files below it: numbers, tests, lists, character classes of the C locale,
--   from_chars and the printing of hexadecimal digits as the standard library documents them, and
--   Outcome, the result of code that can throw, go out of range, or not return.
-- - BigNum: HttpBigNum as a list of words, most significant first. Its loops run on the reversed
--   list, as the source runs on reverse iterators. BigNum/Value says what number a vector stands
--   for; Order, Increment, Canonical, Sum, Difference, Print, RoundTrip and Decimal follow the
--   operators. A word is below 2 ^ 64 and wrap-around is written out.
-- - Http/Chunk and Http/Header: the structs, one function for one character of operator>>, read
--   for its loop and write for operator<<. RoundTrip is about what is written and read back, Stream
--   about two pieces of input, and Chunk/Pieces about a written chunk that arrives in pieces.
-- - Http/Version and Http/Message: what requests and responses share; Http/Request and
--   Http/Response: the two structs, line_step for a character of the first line, round for one
--   round of the loop of operator>>, read for the operator, write for operator<<. Line is about
--   the first line, Message/Validity and Safety about the indices into headers and chunks.
-- - Manifest: the heap of Relations, the index, emplace and next. Index is about lookups,
--   Invariant about well-formed manifests, Emplace and Totality about emplace, Next and Progress
--   about next.
-- - Threads: the scheduling handles, the signals and the pending indices; Turns and Signals are
--   about these. Threads/Pipes models the loops over pipes and Threads/Machine thread_continue;
--   Threads/Results is about the answer of a subprocess.
-- - Context: Context/Construct is the loop of the constructors that fills the manifest, with the
--   sort by depth; Counting compares lengths, Filling is about the loop, Order about the result.
--   Context/Peers is the peer table: Members is about what is in it, Merge about
--   merge_peer_addresses and the constructor, RoundTrip about rtostr.
-- - Controller/Objects: find_next_json_object, turn for one character, and the loop over a chunk,
--   objects_of, on any state and with what its body does with a value as an argument; Split is about
--   one object, Stream about a chunk. Controller/Events is the text of the state updates, and its
--   Stream what a peer makes of them. Controller/Schedule is reschedule_actions and
--   update_context, the service of a stopped thread with the update of its peers, a session being
--   the data of the chunks that its message has had added; Ready says what next
--   gives them and what Handed means, Reschedule, Returns and Update are about the two.
--   Controller/Results is the merge of results by route_request and route_response, Store about
--   one write and Merge about the loop. Controller/Requests is populate_indices and its use;
--   Controller/Response is create_response, of the versions of the requests of the sessions; Length
--   is about its Content-Length and Result about the actions that it gathers.
-- - Io: the queue of messages, as a step relation in Io/Queue, and the signal word at the top of
--   the scheduling loop in Io/Signal.
-- - Uuid: the bytes of a UUID and their text; RoundTrip is about reading what is printed, Version
--   about Uuid(v4).
-- - The Examples files apply the results to concrete data.
--
-- Fuel. The parsers of chunks and headers recur on the bytes and need none. The loops of requests
-- and responses take one unit of fuel for a character of the first line, and one for a header or a
-- chunk that they go on with; results about them hold on any fuel, or say how much is used up.
-- emplace takes fuel above the rank of the action among its dependencies, next takes the length of
-- the index and a bound of the depths, and so do the functions of Controller/Schedule, which pass
-- it on. The loop of the constructors takes fuel above the number of keys, and the loop over the
-- objects of a chunk above their number or that of the characters. The loops over pipes take the
-- results of the system calls one by one; where these run out the call still blocks.
--
-- Parameters. The parsed JSON of a manifest (boost::json), the text that boost::json makes of an
-- object and what it parses, the environment variable __OW_ACTIONS, inet_aton and inet_ntop,
-- std::sort by its documented result, the bytes of getrandom, and the results of the system calls.
--
-- Not modelled. fork_exec, kill_subprocesses and cleanup, which are sequences of system calls; the
-- sockets and the sessions; the dispatch of requests by route, the initializer and executor
-- threads, and the requests by libcurl; the environment and the stack of indices of a context, and
-- the init and run resources; the interleaving of threads within one call, which the mutexes
-- exclude, and while a call of notify waits for its turn. The bytes of a stream are those in its
-- buffer when an operator is called. memcpy between bytes and integers is little-endian.
pub mod Prelude
pub mod BigNum
pub mod Context
pub mod Controller
pub mod Http
pub mod Io
pub mod Manifest
pub mod Threads
pub mod Uuid
