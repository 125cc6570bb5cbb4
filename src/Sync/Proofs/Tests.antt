-- ===== src/Sync/Proofs/Tests.antt =====
-- The predicates on collects, and the proofs in them, at concrete collects.
use bafomet.Base.{ℕ, some, none, List, [], ◌∷◌, replicate}
use bafomet.Message.{NodeId, Header, pre_prepare, commit}
use bafomet.Message.System.{view_change, stop_data}
use bafomet.Log.Types.{CollectData, Proof}
use bafomet.Log.Decision.{Stored}
use bafomet.Sync.Samples.{sums, zeros, node, view}
use bafomet.Sync.Types.{StoredChange}
use bafomet.Sync.Predicates.{sound}
use bafomet.Sync.Predicates.Bound.{IsBinding, sound-IsBinding}
use bafomet.Sync.Proofs.{highest_proof}
use bafomet.Sync.Proofs.Highest.{IsHighest, proofs_of, highest_proof-IsHighest}

abbrev header : NodeId → ℕ → Header
header from length = record {
  version = 0;
  from = from;
  to = 0;
  nonce = from;
  length = length;
  digest = 9;
  signature = 0;
}

abbrev collected : CollectData
collected = record {
  incomplete_proof = record { in_exec = 0; write_set = []; quorum_writes = none };
  last_proof = none;
}

abbrev bound_collect : CollectData
bound_collect = record collected {
  incomplete_proof = record {
    in_exec = 0;
    write_set = record { view = 0; value = 7 } ∷ [];
    quorum_writes = some (record { view = 0; value = 7 });
  };
}

sound-IsBinding_example :
    IsBinding view
      (replicate 3 (some bound_collect))
      (sound view (replicate 3 (some bound_collect)))
sound-IsBinding_example = sound-IsBinding view (replicate 3 (some bound_collect))

abbrev stored : Stored
stored = record { header = header 2 0; message = record { seq = 4; view = 0; kind = commit 9 } }

abbrev proof : Proof
proof = record {
  pre_prepare = record {
    header = header 1 0;
    message = record { seq = 4; view = 0; kind = pre_prepare [] };
  };
  prepares = [];
  commits = replicate 3 stored;
}

abbrev collects : List (StoredChange ℕ)
collects =
    record {
      header = header 2 8;
      message = view_change 1 (stop_data (record collected { last_proof = some proof }));
    }
    ∷ []

highest_proof-IsHighest_example :
    IsHighest sums zeros node.get_public_key view
      (proofs_of sums zeros node.get_public_key collects)
      (highest_proof sums zeros node.get_public_key view collects)
highest_proof-IsHighest_example =
    highest_proof-IsHighest sums zeros node.get_public_key view collects
