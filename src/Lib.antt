-- ===== src/Lib.antt =====
-- PipeForge: a session server over a local pipe, with its wire protocol and its domain.
--
-- A client sends requests, each in a frame: four bytes of length and a Protobuf payload. The server
-- takes frames off the byte stream, decodes and checks each request, and dispatches it to the store
-- of its session, which keeps values and objects under ids and accounts for their bytes. The
-- outcome is encoded and framed the same way. Objects are of classes that the server registers at
-- its start; two are built in.
--
-- The parts, in the order of their dependence, and the code that they model:
--
--   Base         Boolean tests, lists over native numbers, texts as bytes, 64-bit sizes
--                (`add64` and `sub64` wrap), results with an error.
--   Contracts    include/pipeforge/contracts.hpp: values, operations, outcomes and limits. The
--                field `data` is `datum` here. An enum read from a byte has a constructor for the
--                numbers that no enumerator has.
--   Validation   src/contracts/validation.cpp: names, kinds, values, arguments, descriptions.
--                `Validation.Arguments` compares arguments with parameters.
--                `utf8_range::IsStructurallyValid` is the instance argument `Utf8`.
--   Framing      src/protocol/framing.cpp: `frame` and `frame_decoder`. `Framing.Spec` is the
--                grammar of the stream, `Framing.Body`, `Framing.Refinement` and
--                `Framing.Roundtrip` compare.
--   SortedMap    std::map with 64-bit keys, as a list of entries in the order of their keys.
--   Objects      include/pipeforge/domain.hpp: the class `object` as the instance argument
--                `ObjectClass`, the class definitions and the domain's limits.
--   Registry     src/domain/domain.cpp, `class_registry`; `Registry.Laws` has its order.
--   Identifiers  src/domain/domain.cpp, `identifier_source`.
--   Store        src/domain/domain.cpp, `session_store`: the state (`Store.State`), the operations
--                on values, objects and methods, and `Store.Execute`. An operation takes the store
--                and the id source, which the server's sessions share, and returns both with the
--                outcome. `Store.Outcomes` and `Store.Invocations` say what each changing
--                operation can do, `Store.Invariant` what a store keeps to (`Store.Accounting`
--                has it for those operations) and `Store.Cursors` what a page takes; the results
--                are in `Store.Preservation`, `Store.Atomicity`, `Store.Acceptance`,
--                `Store.Retention`, `Store.ObjectReads` and `Store.Paging`.
--   Builtins     src/domain/builtins.cpp: Counter and TextBuffer. An int64 is an integer with its
--                bounds as a hypothesis.
--   Codec        src/protocol/codec.cpp over the messages of proto/pipeforge/v1/protocol.proto
--                (`Codec.Wire`): the resource limits (`Codec.Limits`), the fields and bodies both
--                ways, the envelopes. Protobuf itself is the parameter `Protobuf`, and
--                `Codec.Exchange.IsFaithful` is what is documented of it.
--   Dispatcher   src/server/dispatcher.cpp: `process` and `reject`. `Dispatcher.Serving` has what a
--                request leaves of its session.
--   Completion   src/transport/completion.cpp: `resolve_pending` and `valid_endpoint`, with the
--                native operation as the record of its answers.
--   Client       src/client/client.cpp, `connection_state`. Each section that holds the mutex is a
--                function on `Client.State.Connection`; `Client.Steps` runs them in any order, also
--                in orders in which a thread would still wait. A promise is its `set_value` calls,
--                which `settled` and `opened` log. `Client.Matching` has `translate` and `matches`.
--                A section reads the clock and the stop tokens as they are at one moment.
--   Transport    src/transport/windows. `Transport.Native` is native.cpp: one overlapped operation
--                over what the system answers, on top of `resolve_pending`. `Transport.Stream` is
--                `pipe_stream`: `send`, `receive` and `connect`, each a loop over the answers to its
--                rounds, on top of `frame` and `frame_decoder`. `Transport.Server` is `server_state`,
--                what the workers share; `Transport.Server.Requests` and `.Workers` are what a
--                worker does from one look at it to the next; `Transport.Server.Steps` runs the
--                workers in any interleaving, and `Transport.Server.Start` is `start` and `launch`.
--                `Transport.Server.Answering` composes client, streams, codec, dispatcher and store
--                in one call. `Transport.Stream.Connecting` has the tries of `connect`, and
--                `Transport.Stream.Opening` what they come to.
--   Diagnostics  src/diagnostics/diagnostics.cpp: the log and the trace of a session.
--                `Diagnostics.Runs` has the scopes, and what threads do with them in any order,
--                `Diagnostics.Accounts` what a trace tells of that, and `Diagnostics.Shutdown` its
--                end.
--   Application  src/cli/application.cpp: the arguments and the exit code; `Application.Serving` is
--                src/cli/server_commands.cpp.
--   Examples     runs at concrete inputs.
--
-- Loops are structural recursion on the list, map or message that the code walks, on the rounds of
-- a loop with a fixed count, or on what the system answers to the rounds of a loop. Such a loop has
-- not returned where the answers end; `receive` and `send` make at most as many reads and writes as
-- the largest frame has bytes, so that many answers are enough. The reader of pages in
-- `Store.Paging` is given one page more than there are values.
--
-- Not modelled: the ownership of handles, the joining of threads, the text of the usage, the client's
-- demonstration (src/cli/client_commands.cpp), and the channel that passes calls on to the stream
-- (src/client/windows_channel.cpp). Error numbers are those that the system documents. Sizes are 64
-- bits wide. A registry does not change once a store exists, so a stored object holds its definition
-- where the code holds a pointer to it. A store's operations are serialized, by the server's domain
-- gate, so a session is a sequence of them. Exceptions of allocation are left out.
pub mod Base
pub mod Contracts
pub mod Validation
pub mod Framing
pub mod SortedMap
pub mod Objects
pub mod Registry
pub mod Identifiers
pub mod Store
pub mod Builtins
pub mod Codec
pub mod Dispatcher
pub mod Completion
pub mod Client
pub mod Transport
pub mod Diagnostics
pub mod Application
pub mod Examples
