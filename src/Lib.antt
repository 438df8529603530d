-- ===== src/Lib.antt =====
-- A verification of RedLease, a lock service: independent servers grant leases on keys for a bounded
-- time, and a client that holds a lease on a majority of them holds the key.
--
-- The parts and the files that model them:
-- - Protocol: internal/protocol/message.go and the enumerations of the schema. An enumeration is its
--   number on the wire.
-- - Server.Heap: leaseDeadlineHeap of server/state.go under container/heap. An object is an address, and
--   its heapIndex is a map from addresses; `none` is -1, and a result `none` is a run-time panic.
-- - Server.Shard: leaseShard of server/state.go, addLease, removeLease, recycleLease and
--   removeExpiredLeases, with the map, the heap and the pool of objects. A pool of the runtime may drop
--   objects; the one here gives back the object that came last, or a new one.
-- - Server.State: acquire, acquireLocked, renew, release, apply, applyOperation, reserveKey, releaseKeys
--   and removeExpiredKeys of server/state.go, on the state of a whole server. The compare-and-swap loops
--   of the counter are single steps, since one operation runs at a time; shardIndex takes the hash as a
--   parameter. Server.Safety says what these operations are worth to the holder of a lease.
-- - Server.Lifecycle: Config, New, fail, Close, the quarantine and the cleanup of server/server.go, and
--   the error of an unavailable server of server/connection.go, as steps on that state, in
--   Server.Lifecycle.Restart on a clock that starts with the server.
-- - Wire: encodeRequest of client/connection_generation.go, processRequest of server/connection.go,
--   encodeResponse of server/response.go and DecodeResponse of internal/transport/client_codec.go, over
--   tables with the fields of the schema. The generated code is a parameter.
-- - Ring: internal/mpscring/ring.go, the queue of requests, operations and responses. Producers and the
--   consumer are step functions on shared state, with one atomic access in each step, and Ring.Run is any
--   interleaving of them. Only where the consumer takes a value are the load of the sequence and the store
--   of the head, which no one else writes, one step. Positions stay below 2^64 in every run that is counted.
-- - Client.Quorum: client/quorum.go, and bestAcquireQuorum and acquireQuorumStillPossible of
--   client/acquire.go.
-- - Client.Config: the checks of client/config.go.
-- - Client.Lease, Client.Collect, Client.Acquire, Client.Renew, Client.Healing: the files of the same names
--   under client, and client/release.go. A call is a function of what it reads: the results of submit, the
--   events of responses.next and the clocks.
-- - Client.Connection: the requests of client/replica_conn.go and client/connection_generation.go from
--   submitForOperation to the one result, with the critical sections of their shards as steps, and
--   Client.Connection.Manage the goroutine that connects again and the state it shares with Close and
--   WaitReady, which is Client.Ready. A queue there is the bounded first-in-first-out queue that Ring is shown to be.
-- - Client.Responses: client/replica_responses.go over an interface of the connections, which
--   Client.Responses.Conns shows that Client.Connection fills. A pass of next does not arm the timer: an
--   event says whether it fired.
-- - Frames: internal/transport/frame_rw.go.
-- - Client1of1: client1of1/lease.go. Client1of1.Connection: the requests of client1of1/connection.go, and
--   their end in Close of client1of1/client.go.
-- - Metrics: internal/clientmetrics/recorder.go with the bounds of clientmetrics/metrics.go.
-- - Backoff: internal/backoff/backoff.go.
-- - Cluster: servers and clients together. Cluster.Leases joins Acquire of the client to the servers: the
--   network is what its record Delivered says of it.
--
-- How they interact: a client sends Acquire to its servers and turns every successful answer into an
-- instant to which it trusts it, the start of its request plus the granted time less a margin. It chooses
-- the latest instant that a quorum supports. A server keeps a lease for at least the time that it
-- answered, counted from its own clock at a later instant. Two quorums share a server, so two clients
-- never trust a lease on one key at one time.
--
-- Numbers: instants and durations are natural numbers of nanoseconds, and the zero time is 0. Times to
-- live are milliseconds. Counters of 64 bits are natural numbers: a counter of keys stays below its
-- limit, and those of operations and requests do not come round in the life of a process. All clocks of
-- a Cluster show one time.
--
-- Fuel: `up` has one unit more than the index it starts from and `down` one unit more than the length, and
-- each pass halves or doubles the index; removing expired leases has one unit for each entry of the heap
-- and one more. The loops of a client run over the list of their events; one event for each replica is
-- enough, and a shorter list stands for a call that still waits. Abort receives once for every request that
-- remains, as its loop does, and the length of a number in bits has a unit for each of the 64 bits.
--
-- Not modelled: the scheduling of goroutines outside of Ring and Client.Connection, sockets and the generated
-- code, the manager of the connection of client1of1/client.go, the metrics of the server, the exporters, the
-- executables under cmd and the drawing of boot identifiers. A server of a Cluster is not restarted; what a
-- restart costs is the quarantine, compared with the rule of the client in Server.Lifecycle.Restart.
pub mod Prelude
pub mod Protocol
pub mod Server
pub mod Backoff
pub mod Wire
pub mod Frames
pub mod Metrics
pub mod Ring
pub mod Client
pub mod Client1of1
pub mod Cluster
mod Tests
