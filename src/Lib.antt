-- ===== src/Lib.antt =====
-- The C code of cocolog: the client of the ZiguratIP binary protocol, client/zigurat.c with its header
-- client/zigurat.h, the secure connections of client/tls.c, the reader of Zeytun pages,
-- client/zeytun.c; and the tensors of library(tensorflow), modules/tensorflow/backend.c.
--
-- The program. cocolog keeps its knowledge base in a server that it reaches over a socket, or in an
-- embedded engine in the same process. A connection (`struct zg_conn`) holds a request back until it
-- is complete, reads ahead, takes turns with other processes by a lock on a file, and answers every
-- call with 1, or with 0 and a message. On top of the two byte streams stand integers in network
-- order and counted texts, on these results and verbs, and on these fields with a type-descriptor
-- byte.
--
-- The TensorFlow backend is apart from these. A program names tensors by handles, which are places in
-- a table of slots; a slot is a value on the device, or a node: an operation with the handles that it
-- reads, each of which counts its readers. Under graph mode operations are recorded with their shape
-- by rule; what is asked for is run by its closure, the nodes under it.
--
-- The model. A C function that can fail is an `Action`, from a `State` to a `Result`: a value and a
-- state (the answer 1), a state alone (the answer 0), or no answer, when a system call never returns.
-- `if (!f()) return 0;` is the bind of a do block. Values that the source stores through pointers are
-- part of the answer. The kernel, OpenSSL, the allocator and the embedded engine are scripts in the
-- `World`, one answer for each call, over which the theorems range; the world also records what was
-- done to them. Files, with the code that each is about:
--
--   World               the system calls, OpenSSL and the embedded engine: their answers
--   Tls                 client/tls.c: struct zt_tls, tls_note, coco_client_tls_why; Tls/Opening:
--                       coco_client_tls_open; Tls/Securing: what it opens
--   State               client/zigurat.c: struct zg_conn, struct ce_slot
--   State/Outcomes      how a call may end, for statements about every outcome
--   Errors              say, say2
--   Turn                take_turn, give_turn, zg_serialise; Turn/Waiting: how long a wait takes
--   Socket              lost, why, rd, wr_now, flush_out, wr, skip; Socket/Sending, Safety and Reading:
--                       both streams whatever is answered, with Socket/Descriptors; Socket/Ready, Socket/Flushing and
--                       Socket/Receiving: both streams of a connection in working order
--   Order               host_is_big_endian, reorder; Order/Reversal, Order/Bytes: what they do
--   Wire                rd_be to rd_std_string; Wire/Values: the same as conversations
--   Engine              ce_of, ce_forget, emb; Engine/Sessions: a thread's sessions
--   Exchange            conversations: what an action writes, reads and answers, with rules to
--                       put them together
--   Results             zg_result, verb; Results/Conversations, Results/Exceptions
--   Calls               zg_echo, zg_compile, zg_call, zg_call_send, zg_call_wait, zg_auto_commit,
--                       zg_isolate, simple_verb, zg_commit, zg_rollback, zg_columns
--   Fields              zg_write_bool to zg_write_dvector; Fields/Reading: zg_read_bool to
--                       zg_read_dvector; Fields/Skipping: zg_skip_field, zg_read_field, zg_drain;
--                       the files below Fields: their properties
--   Dialling            dial, zg_open, zg_open_embed, zg_reopen, zg_close, zg_is_open, zg_owns,
--                       ce_thread_slots_free; below it Opened, Descriptors, Greeting, Connecting and
--                       Closing: the descriptors, and what is left of the old connection and of the closed one
--   Zeytun/Coding       client/zeytun.c: zt_urlencode, zt_unescape; below it Addresses, Entities,
--                       InPlace, Escaping: what they do
--   Zeytun/Pages        zt_conn, zt_read, zt_hangup, fail, slurp; Zeytun/Pages/Slurping: what it reads
--   Zeytun/Fetching     dial, zt_write, zt_get2, zt_get of client/zeytun.c; below it Closing,
--                       Leaving, Status and Answering: what is left open, and what is answered
--   Tensor/Slots        modules/tensorflow/backend.c: OpSpec, TfSlot, slot_new, tfb_exists, live;
--                       Tensor/Searching: that a free slot is found
--   Tensor/Freeing      unref, really_free, tfb_free, drop_structure; below it Counting, Storing,
--                       Unref, Cursor, Leaving, Releasing, Dropping: the count of references, and what a
--                       program sees
--   Tensor/Recording    spec_init to spec_bool, run_spec_ under graph mode; below it References,
--                       Undoing, Nodes, Tables, Contents, Runs, Outcomes: the count and the new node
--                       when an operation is recorded or its record is undone
--   Tensor/Integers, Tensor/Shapes, Tensor/Rules
--                       leaf_shape, bcast, shape_rule; Tensor/Shapes/Aligned: broadcasting
--   Tensor/Closing      visit, leaf_index, node_index, the results of closure_of_; below it Reaching,
--                       Growing, Marks and Order: the order of a closure
--   Tensor/Making       tfb_from_doubles, tfb_from_ints, slot_from_tensor, slot_from_handle, ivec,
--                       iscalar, fscalar, with_free; below it Temporaries, Values, Makers: what they
--                       leave
--   Tensor/Producing    tfb_unary, tfb_binary, tfb_scalar, tfb_agg, tfb_argmax, tfb_reshape, tfb_cat,
--                       tfb_gather; Tensor/Producing/Keeping: what they leave
--   Tensor/Slicing      tfb_slice, tfb_standardise; Tensor/Slicing/Sound: the state that they leave
--   Tensor/Stepping     tfb_step
--   Tensor/Reaching     the states that calls of these reach from tfb_init
--   Tensor/Scalars      fscalar: the table of shared scalars; below it Recent and Ring: its queue
--   Tensor/Shuffling    tfb_arange, tfb_randperm
--   Samples, Examples, Dialling/Examples, Zeytun/Examples, Tensor/Examples: the theorems at concrete
--                       inputs
--
-- Representation. A byte is a number; a signed integer or a double is its bit pattern. A C string is
-- the list of its bytes before the terminator. A descriptor of -1 is none. `out`, `in` and `err` are
-- lists, the arrays' parts in use. Loops over a buffer or over the kernel's answers are structural.
-- `zg_skip_field`, which calls itself for a vector's elements, has fuel: one more than the bytes that
-- can still arrive, since each call takes a byte at least; `zg_drain` takes the number of rounds as an
-- argument, for which the number of those bytes is enough on a socket.
--
-- What the resolver, `socket`, `connect` and OpenSSL answer while a connection is opened are arguments
-- (`Route`, `Net`, `OpenSsl`). client/zeytun.c, which keeps no connection, has a state of its own, the
-- `Page`, with the server's bytes and the answers of reads, writes and the allocator. The doubling loop
-- of `slurp` has as many rounds of fuel as there are bytes in the buffer; one is always enough.
--
-- The slot table is a list of `tf_slots` slots, of which a `Backend` is the state with the cursor, the
-- message, the handles that were given back to TensorFlow and the count of recorded nodes. `unref`,
-- which calls itself through `really_free`, is a list of calls still to be made, with fuel for one
-- call each and one for each input of a node, since a slot that is freed reads nothing any more.
-- `visit` has its depth as fuel: a node reads only what was made before it, so the place in that order
-- bounds it. What TensorFlow answers in each state (a handle, a shape that it infers, a message) is an
-- argument, the record `TensorFlow`; where the source runs recorded nodes to learn a shape, the values
-- that this stores, and the inputs that such a node then lets go of, are left out.
-- Where the rules of GatherV2 and of a concatenation write outside of their arrays of eight sizes,
-- which is undefined, the lists of the model are longer, or do not change. A whole number that is
-- stored as a float is rounded to the nearest and to even.
-- Sums and products of sizes do not wrap: they are undefined in the source when they leave their type.
--
-- Not modelled: of modules/tensorflow/backend.c eager mode, the graphs that a closure compiles to and
-- their calls, reading values, gradients, parameters, random tensors and CSV files; a null connection
-- pointer; the options that `dial` sets on a socket; the build without OpenSSL; all that is written in Cicili and in Prolog.
pub mod Prelude
pub mod World
pub mod Tls
pub mod State
pub mod Errors
pub mod Turn
pub mod Socket
pub mod Order
pub mod Wire
pub mod Engine
pub mod Exchange
pub mod Results
pub mod Calls
pub mod Dialling
pub mod Fields
pub mod Zeytun
pub mod Tensor
pub mod Samples
mod Examples
