-- ===== src/Replica/Bootstrap/Tests.antt =====
-- A replica that starts with one request.
use bafomet.Base.{List, [], ◌∷◌}
use bafomet.Message.{RequestMessage}
use bafomet.Message.System.{request}
use bafomet.Sync.Samples.{sums}
use bafomet.Replica.Types.{Incoming, system}
use bafomet.Replica.Events.{request_received}
use bafomet.Replica.Samples.{TestReplica, TestEffect, header, new_replica}
use bafomet.Base.{ℕ}
use bafomet.Consensus.Tbo as Tbo

abbrev operation : RequestMessage ℕ
operation = record { operation = 4 }

abbrev rogue : List (Incoming ℕ ℕ ℕ)
rogue = system (header 1000) (request operation) ∷ []

abbrev started : TestReplica × List TestEffect
started = request_received sums 3 new_replica (header 1000) operation
