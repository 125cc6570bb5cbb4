-- ===== src/Replica/Samples.antt =====
-- A new replica among four, for the tests.
use bafomet.Base.{ℕ}
use bafomet.Collections.{assoc_map}
use bafomet.Message.{NodeId, Header}
use bafomet.Sync.Samples.{view}
use bafomet.Sync.Types.{StoredRequest}
use bafomet.Replica.Types.{Replica, Effect, create}

abbrev pub TestReplica : Type 0
TestReplica = Replica ℕ ℕ (assoc_map (StoredRequest ℕ))

abbrev pub TestEffect : Type 0
TestEffect = Effect ℕ ℕ ℕ

abbrev pub header : NodeId → Header
header from = record {
  version = 0;
  from = from;
  to = 0;
  nonce = from;
  length = 0;
  digest = 9;
  signature = 0;
}

abbrev pub new_replica : TestReplica
new_replica = create view 7 2
