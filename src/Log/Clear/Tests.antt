-- ===== src/Log/Clear/Tests.antt =====
-- The end of a decision log is cleared at a concrete log.
use bafomet.Base.{some, ok, [], ◌∷◌, ◌≡◌}
use bafomet.Ordering.SeqNo.{SeqNo}
use bafomet.Message.{Digest, ConsensusMessageKind, pre_prepare, prepare, commit}
use bafomet.Log.Types.{DecisionLog}
use bafomet.Log.Decision.{Stored}
use bafomet.Log.Clear.{find_digest, clear_last_occurrences}
use bafomet.Log.Clear.Suffix.{clear_last_occurrences-cleared}

abbrev stored : SeqNo → Digest → ConsensusMessageKind → Stored
stored seq digest kind = record {
  header = record {
    version = 0;
    from = 1;
    to = 0;
    nonce = 0;
    length = 0;
    digest = digest;
    signature = 0;
  };
  message = record { seq = seq; view = 0; kind = kind };
}

-- Instance 3 is executed, and instance 4 has two proposals.
abbrev declog : DecisionLog
declog = record {
  last_exec = some 3;
  pre_prepares =
      stored 3 7 (pre_prepare []) ∷ stored 4 8 (pre_prepare []) ∷ stored 4 9 (pre_prepare []) ∷ [];
  prepares = stored 3 1 (prepare 7) ∷ stored 4 2 (prepare 8) ∷ [];
  commits = stored 3 1 (commit 7) ∷ [];
}

-- The proposal with digest 8 is handed out.
clear_last_occurrences-cleared_example :
    clear_last_occurrences declog 4 (some 8)
    ≡ ok (
      some (stored 4 8 (pre_prepare [])),
      record {
        last_exec = some 3;
        pre_prepares = stored 3 7 (pre_prepare []) ∷ [];
        prepares = stored 3 1 (prepare 7) ∷ [];
        commits = stored 3 1 (commit 7) ∷ [];
      },
    )
unfolding find_digest
clear_last_occurrences-cleared_example = clear_last_occurrences-cleared declog 4 (some 8)
