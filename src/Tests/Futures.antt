-- ===== src/Tests/Futures.antt =====
-- The requests of client1of1/connection.go at concrete ones.
use red_lease.Prelude.{ℕ, ◌≡◌, refl, arith, [], ◌∷◌, Option, none, some, false}
use red_lease.Wire.{OutboundRequest}
use red_lease.Client.Connection.{ConnError, ConnResult, lookup}
use red_lease.Client1of1.Connection.{SingleConn, enqueue, timed_out, await}
use red_lease.Client1of1.Connection.Await.{Future, is_pending, Awaited, await-total}

abbrev idle_conn : SingleConn
idle_conn = record {
  cancelled = false;
  req_queue = [];
  shards = λ i. record { pending = some []; responses = [] };
}

abbrev request_of : ℕ → OutboundRequest
request_of id = record {
  request_id = id;
  key = 7;
  sequence = 1;
  ttl_ms = 1000;
  client_id = 1;
  boot_id = 2;
  operation = 1;
}

abbrev conn_after : Option (Option ConnError × SingleConn) → SingleConn
conn_after none = idle_conn
conn_after (some (e, c)) = c

-- The channel 9 waits for the request 5.
abbrev asking : SingleConn
asking = conn_after (enqueue idle_conn (request_of 5) (some 9))

asking-Future : Future asking 5 9 []
unfolding enqueue lookup
asking-Future = is_pending ((5, 9) ∷ []) refl refl

await-total_example :
    (r : SingleConn × ConnResult) × (await asking 5 9 [] timed_out ≡ some r)
    × Awaited asking 5 9 [] timed_out r
await-total_example =
    await-total asking 5 9 [] timed_out asking-Future (λ e. absurd (ground (arith, e)))
