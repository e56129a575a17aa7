-- ===== src/Lib.antt =====
-- Aqueduct is a message broker over QUIC. A frame is parsed from a stream (internal/protocol),
-- checked against the client's rules (internal/authz) and rate (internal/quotas), and routed to the
-- bounded priority queues of subscribers (internal/broker), whose writers send it on.
--
-- Files, and the code that they model:
--   Base: shared tests, lists, results, bytes and buffers; no code of the broker.
--   Protocol/Command, Protocol/Frame, Protocol/Batch: internal/protocol/frame.go. ParseFrame is
--   `parse_frame`, SerializeFrame `serialize_frame`, SerializeFrameWithExtensions
--   `serialize_with_extensions`, ParseBatch `parse_batch`.
--   Protocol/Extensions and its children: internal/protocol/extensions.go. FindExtension,
--   ExtractPriority, ExtractTraceContext and StripExtension keep their names.
--   Broker/Wildcard: internal/broker/wildcard.go.
--   Broker/Refs: internal/broker/msg_ref.go, the reference counters.
--   Broker/Queue: internal/broker/router.go, a subscriber's queues, enqueueToSubscriber,
--   handleOverflow, fetchNextMessage and the drain.
--   Broker/Topic: the same file's payload parsers and table key.
--   Broker/Router: the same file's tables, publishing (Router/Publish, Router/Batches),
--   subscriptions and offsets (Router/Slots), and runBackfillWorker (Router/Backfill). Router/Steps
--   puts calls and writers' steps in any order; PublishBatch is not among those steps.
--   Broker/Writer: the same file's batchAccumulator and runSubscriberWriter. A round of its loop is
--   `writer_round` (Writer/Rounds), handleNack `handle_nack` (Writer/Nacks; the NACKs of all writers
--   are in Writer/Redelivery), the function itself `run_subscriber_writer`.
--   Cluster and its children: internal/cluster. AddPeer, RemovePeer, Forward and resolve keep their
--   names; the loops of the peers are the steps `open_stream` and `close_stream`.
--   Metrics: internal/metrics/metrics.go, the bound on label values, `sanitize`.
--   Admin: internal/admin/server.go. The interceptor is `authorize`, UpdateACL `update_acl`.
--   Authz: internal/authz/acl.go. Quotas: internal/quotas/bucket.go.
--   Mem: internal/mem/slab.go. A size class is a record with its free list as links; its Acquire and
--   Release are `acquire_block` and `release_block`, the allocator's `acquire` and `release_buf`.
--   In Mem/Steps callers hold blocks of the current arena and of those before it, which the run time
--   keeps while a block of them is held. Elsewhere the buffers that it hands out are arguments.
--   Aal and its children: internal/aal/aal.go. WriteFrame is `write_frame`, Replay `replay` over
--   `decode_replay_chunk`, Rotate `rotate`, DecryptFrame `decrypt_frame`; the log is a record that
--   holds the bytes of its file.
--   Transport: internal/transport/broker.go. prepareFrame, with the check and the log, is
--   `prepare_frame`; routeFrame and dispatchFrames are in Transport/Route, the read loop and its
--   buffer, with GetBuf of internal/transport/processor.go, in Transport/Streams, and ReplayAAL in
--   Transport/Startup. A frame that passes goes to the log (Aal) and to the router (Broker/Router).
--
-- How it is modelled. Numbers are natural numbers, with the wrap-around of Go's widths written out.
-- A Go call that can fail or fault returns an `Outcome`: a value, an error or a run-time fault. A
-- recycled buffer is an argument with any content. Channels are lists with a capacity, references
-- are numbers with a counter in `Refs`, and the router's parallel arrays are one list of slots. Each
-- call of the router and each step of a writer runs to its end before the next one starts.
--
-- Fuel. The batch walk gets the payload's length plus one, and each round moves on by ten bytes at
-- least. The lookups and the removal of extensions get the block's length plus one, and each round
-- moves on by two bytes at least. The decoder of the log gets the chunk's length plus one, Replay the
-- file's length plus two, which is enough for records that fit its buffer; the walk over the frames
-- of a buffer gets the buffer's length plus one, and the read loop the number of bytes to come plus
-- two: each of its rounds reads a byte or is the last one.
--
-- Parameters: the clock, strconv's number parsers, the callback of the batch walk, the number of
-- active peers, and the memory that internal/mem or a pool hands out, of which only the length is
-- relied on; the cipher of the log, of which sealing and opening are relied on; how many bytes a
-- read takes, where a read does not fail, and how each write of a writer ends; the compression
-- engine, and the handlers registered for commands; net.ParseIP, net.JoinHostPort, of which it is
-- relied on that it keeps addresses apart, sort.Strings, strings.TrimSpace and strings.ToLower.
--
-- Not modelled: the compression of forwarded batches, the opening, closing, syncing and renaming of
-- the log's files and their errors, QUIC connections, shutdown, tracing spans, WebTransport streams,
-- concurrent calls of the slab allocator, the dialing of peers, configuration, the collectors of the
-- metrics, and the gRPC server of the admin service.
pub mod Base
pub mod Protocol
pub mod Authz
pub mod Quotas
pub mod Aal
pub mod Broker
pub mod Transport
pub mod Mem
pub mod Cluster
pub mod Admin
pub mod Metrics
