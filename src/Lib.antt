-- ===== src/Lib.antt =====
-- wee: a C toolbox for network programs, and two RPC clients on top of it.
--
-- The parts that are modelled, and how they interact:
--   * base/buffer.c is the byte buffer that everything else reads from and writes to: a block with
--     a read and a write index and room in front for headers. Buffer.antt has its state (`Buffer`)
--     and its operations; Buffer/Words its integers in both byte orders, Buffer/Strings its string
--     functions, Buffer/Search its searches. Buffer/Valid has the invariant, Buffer/Content, Fifo
--     and Front what the operations do to the bytes held, Buffer/Limits the cases in which it
--     shrinks or cannot grow,
--     and Buffer/Chain and Buffer/Room the rules by which the codecs reason about a chain of
--     calls. Buffer/ReadFd has its reads from a descriptor, and Buffer/Received what they do.
--     Buffer/Views has its read-only views, over a store of buffers, with the count of the views
--     in Views/Sound and every run of calls in Views/Runs.
--   * nova_client/codec.c packs and unpacks the header of a nova packet: Nova.antt, Nova/Layout
--     and Nova/RoundTrip. nova_client/generic.c makes the header and the thrift message of a
--     generic call, and reads the answer: Nova/Generic and its children.
--   * dubbo_client/dubbo_hessian.c writes and reads hessian values: Dubbo/Hessian and its
--     children. dubbo_client/dubbo_codec.c frames them as dubbo packets: Dubbo/Codec and its
--     children. dubbo_client/dubbo_client.c sends requests and counts the answers: Dubbo/Client
--     has its state and the way from a connection to the requests sent, Dubbo/Client/Handlers its
--     event handlers, Dubbo/Client/System the calls of the system and of the event loop as a
--     parameter. Its other children have what is sent (Write, Steady, Pipeline, Answer) and what
--     is counted (Counts, Budget, Runs). Dubbo/Sync is its call that waits for an answer.
--   * base/mq.c is a queue of messages in a circular array that doubles: Mq.antt, with Mq/Fifo and
--     Mq/Push for what its operations do to the sequence of messages. base/chan.c is a channel
--     between threads over such a queue: Chan.antt; Chan/Runs has every interleaving of sends and
--     receives, Chan/Answers when a call waits.
--   * base/table.c gives out handles for addresses: Table.antt, with Table/Lookup for its
--     invariant and its growth, Table/Insert and Table/Delete, and Table/Slots for arrays of
--     slots.
--   * base/threadpool.c runs tasks on a pool of workers: ThreadPool.antt, over a queue that is a
--     parameter (ThreadPool/Nodes); ThreadPool/Run has every interleaving of its calls and
--     workers.
--   * base/waitgroup.c lets threads wait until others are done: WaitGroup.antt, with every
--     interleaving in WaitGroup/Runs. base/waiter.c is the same for one signal: Waiter.
--   * net/socket.c makes sockets, and sends and receives whole blocks: Net/Socket, with the system
--     calls as a parameter in its children System and Open, and what is sent, received and left
--     open in Transfer and Open/Ledger. nova_client/nova.c makes one generic call with it:
--     Nova/Client, whose children follow its request (Request), the pieces of an answer (Receive),
--     the answer (Answer), what is printed of it (Shown) and the whole call (Reply). Nova/Options is its command line.
--   * net/sniff.c finds the payload and the options of captured TCP packets: Sniff.antt and its
--     children.
-- Base has the shared names: lists and tests on native numbers, blocks of memory (`slice` is a
-- read, `blit` is memcpy), machine words, byte orders, and options as code that may stop.
--
-- Conventions. A C function `buf_append` is the function `append` of Buffer, `nova_pack` is `pack`
-- of Nova, `hs_encode_int` is `encode_int` of Dubbo.Hessian; the functions of dubbo_codec.c keep
-- their names, as do those of mq.c, chan.c, table.c, threadpool.c, sniff.c and dubbo_client.c. A
-- size_t is a number below 2 ^ 64 whose sums and differences wrap; a signed integer is its bit
-- pattern in two's complement. A failed assertion is the result none (a receiver that waits on a
-- channel is none too). A pointer into a buffer is an offset. Memory that the source allocates is
-- found, except in `create_ex` and `table_expand`, where the outcome of the allocations is an
-- argument. A write
-- behind a block, which the C code does before some of its assertions, is dropped, since the
-- assertion that follows ends the process.
--
-- Bounds. Buffers are smaller than 2 ^ 63 bytes, so that no sum of two sizes wraps. The fuel is
-- that of `decode_chunks`, the hessian string decoder: one call is enough for every text in one
-- chunk. That of `set_loop`, the loop of table_set, is
-- the number of handles tried, and more than the handles in use after the last one is enough.
-- That of `cli_write` is the number of its calls of write; more than the bytes to send and the
-- interruptions to come are enough, as for the loops of net/socket.c; for the reads of nova.c
-- more than the bytes of the message are enough.
--
-- A queue and a handle table double their array only below 2 ^ 30 slots, so that their int capacity
-- does not overflow; in `table_expand` it is written with its wrap-around. A
-- call on a channel is one step, as it holds the lock from its last test to its end; which waiting
-- thread the system wakes, and when, is left open.
--
-- Not modelled: the making of a dubbo request from JSON, the single system calls that net/socket.c
-- and net/sa.c wrap, event loops, the command line of dubbo.c, and the vendored libraries
-- (cJSON, strmap, khash, ae, utf8_decode). base/buffer2.c is an older buffer.c that nothing builds.
pub mod Base
pub mod Buffer
pub mod Net
pub mod Nova
pub mod Dubbo
pub mod Samples
pub mod Mq
pub mod Chan
pub mod Table
pub mod Sniff
pub mod ThreadPool
pub mod WaitGroup
pub mod Waiter
