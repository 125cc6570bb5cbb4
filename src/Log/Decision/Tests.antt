-- ===== src/Log/Decision/Tests.antt =====
-- Proofs of a decision log of a group of four nodes.
use bafomet.Base.{none, some, ok, List, [], ◌∷◌, ◌≡◌, refl}
use bafomet.Ordering.SeqNo.{SeqNo}
use bafomet.Message.{NodeId, ConsensusMessageKind, pre_prepare, prepare, commit}
use bafomet.Core.View.{ViewInfo}
use bafomet.Log.Types.{DecisionLog, IncompleteProof, Proof}
use bafomet.Log.Decision.{
  Stored, find_pre_prepare, votes_of, last_votes, enough, proof_of, decision_of, last_decision,
}
use bafomet.Log.Decision.Votes.{IsProofOf, last_decision-IsProofOf}

abbrev view : ViewInfo
view = record { seq = 0; params = record { n = 4; f = 1 } }

-- A message of the first instance.
abbrev from : NodeId → ConsensusMessageKind → Stored
from id kind = record {
  header = record {
    version = 0;
    from = id;
    to = 0;
    nonce = id;
    length = 0;
    digest = 9;
    signature = 0;
  };
  message = record { seq = 0; view = 0; kind = kind };
}

abbrev prepares : List Stored
prepares = from 1 (prepare 9) ∷ from 2 (prepare 9) ∷ []

abbrev commits : List Stored
commits = from 1 (commit 9) ∷ from 2 (commit 9) ∷ from 3 (commit 9) ∷ []

-- Nothing is executed yet.
abbrev first : DecisionLog
first = record {
  last_exec = none;
  pre_prepares = from 0 (pre_prepare (5 ∷ [])) ∷ [];
  prepares = prepares;
  commits = [];
}

-- The first instance is executed.
abbrev second : DecisionLog
second = record first { last_exec = some 0; commits = commits }

abbrev incomplete : IncompleteProof
incomplete = record {
  in_exec = 0;
  write_set = record { view = 0; value = 9 } ∷ [];
  quorum_writes = some (record { view = 0; value = 9 });
}

abbrev proof : Proof
proof = record {
  pre_prepare = from 0 (pre_prepare (5 ∷ []));
  prepares = from 2 (prepare 9) ∷ from 1 (prepare 9) ∷ [];
  commits = from 3 (commit 9) ∷ from 2 (commit 9) ∷ from 1 (commit 9) ∷ [];
}

last_decision-second : last_decision second view ≡ ok (some proof)
unfolding last_decision decision_of find_pre_prepare votes_of last_votes enough proof_of
last_decision-second = refl

last_decision-IsProofOf_example :
    (seq : SeqNo) × (some 0 ≡ some seq) × IsProofOf second view seq proof
last_decision-IsProofOf_example = last_decision-IsProofOf second view proof last_decision-second
