-- ===== src/Consensus/State.antt =====
-- The state of `Consensus`, and the operations that start and skip instances
-- (bft/consensus/mod.rs).
pub mod Install
use bafomet.Base.{
  ℕ, zero, suc, ◌+◌, ◌%◌, ◌^◌, Bool, true, false, not, ◌==◌, leb, if◌then◌else◌, Option, none, some,
  Result, ok, panic, ◌>>=◌, List, [], ◌∷◌, ◌++◌, length, drop, replicate, last,
}
use bafomet.Ordering.SeqNo.{SeqNo, Either, InvalidSeqNo, left, right, index}
use bafomet.Message.{
  NodeId, Digest, ConsensusMessage, ConsensusMessageKind, pre_prepare, prepare, commit,
}
use bafomet.Message.System.{RecoveryState, Send, broadcast}
use bafomet.Core.View.{ViewInfo, leader}
use bafomet.Log.Decision.{Stored}
use bafomet.Consensus.Tbo
use bafomet.Consensus.Tbo.{TboQueue}

pub data ProtoPhase : Type 0 where
  init : ProtoPhase
  pre_preparing : ProtoPhase
  preparing_requests : ProtoPhase
  preparing : ℕ → ProtoPhase
  committing : ℕ → ProtoPhase

-- `Consensus`; the swap buffer, empty between two calls, is local to `poll`.
pub record Consensus : Type 0 where
  pub batch_size : ℕ
  pub phase : ProtoPhase
  pub tbo : TboQueue
  pub current : List Digest
  pub current_digest : Digest
  pub missing_requests : List Digest

pub data ConsensusStatus : Type 0 where
  voted_twice : NodeId → ConsensusStatus
  deciding : ConsensusStatus
  decided : List Digest → ConsensusStatus

unfoldable pub create : SeqNo → ℕ → Consensus
create initial_seq_no batch_size = record {
  batch_size = 0;
  phase = init;
  tbo = Tbo.create initial_seq_no;
  current = replicate batch_size 0;
  current_digest = 0;
  missing_requests = [];
}

is_init : ProtoPhase → Bool
is_init init = true
is_init pre_preparing = false
is_init preparing_requests = false
is_init (preparing _) = false
is_init (committing _) = false

unfoldable pub is_deciding : Consensus → Bool
unfolding is_init
is_deciding c = not (is_init c.phase)

-- `NodeId::targets(0..n)`, from the back: `n` counts what is left, and `i` is the next one.
targets_from : ℕ → ℕ → List NodeId
targets_from zero i = []
targets_from (suc n) i = (i % 2 ^ 32) ∷ targets_from n (i + 1)

unfoldable pub targets : ViewInfo → List NodeId
unfolding targets_from
targets view = targets_from view.params.n 0

-- `ConsensusMessage::new` for the current instance and view; `forge_propose` is this with a
-- `PRE-PREPARE`.
unfoldable pub new_message : Consensus → ViewInfo → ConsensusMessageKind → ConsensusMessage
new_message c view kind = record { seq = c.tbo.curr_seq; view = view.seq; kind = kind }

unfoldable pub forge_propose : Consensus → List Digest → ViewInfo → ConsensusMessage
unfolding new_message
forge_propose c requests view = new_message c view (pre_prepare requests)

-- A `PREPARE` of the current digest, to all nodes; the leader sends none.
unfoldable pub vote_prepare : NodeId → ViewInfo → Consensus → List (Send ConsensusMessage)
vote_prepare me view c =
    if me == leader view
    then []
    else broadcast (new_message c view (prepare c.current_digest)) (targets view) ∷ []

unfoldable pub propose :
    NodeId → ViewInfo → Consensus → List Digest → Consensus × List (Send ConsensusMessage)
unfolding is_init new_message
propose me view c digests =
    if is_init c.phase
    then (
      record c { phase = pre_preparing },
      if me == leader view
          then broadcast (new_message c view (pre_prepare digests)) (targets view) ∷ []
          else [],
    )
    else (c, [])

-- `self.current[..digests.len()].copy_from_slice(&digests)`.
unfoldable pub copy_digests : List Digest → List Digest → Result (List Digest)
copy_digests current digests =
    if leb (length digests) (length current)
    then ok (digests ++ drop (length digests) current)
    else panic

unfoldable pub proposed : ConsensusMessageKind → Result (List Digest)
proposed (pre_prepare digests) = ok digests
proposed (prepare _) = panic
proposed (commit _) = panic

unfoldable pub finalize_view_change :
    NodeId
    → ViewInfo
    → Consensus
    → Digest
    → List Stored
    → Result (Consensus × List (Send ConsensusMessage))
unfolding proposed copy_digests
finalize_view_change me view c digest pre_prepares = elim (last pre_prepares) [
  | none ↦ panic
  | some m ↦ do
    digests ← proposed m.message.kind
    current ← copy_digests c.current digests
    let c' = record c {
      phase = preparing 1;
      current_digest = digest;
      batch_size = length digests;
      current = current;
    }
    ok (c', vote_prepare me view c')
]

unfoldable pub next_instance : Consensus → Consensus
next_instance c = record c { tbo = Tbo.next_instance_queue c.tbo }

-- `VecDeque::drain(..limit)`, which panics beyond the end.
unfoldable pub drain : ℕ → Tbo.Queues → Result Tbo.Queues
drain limit q = if leb limit (length q) then ok (drop limit q) else panic

clear_queues : TboQueue → TboQueue
clear_queues t = record t { pre_prepares = []; prepares = []; commits = [] }

drain_queues : TboQueue → ℕ → Result TboQueue
unfolding drain
drain_queues t limit = do
  ps ← drain limit t.pre_prepares
  qs ← drain limit t.prepares
  cs ← drain limit t.commits
  ok (record t { pre_prepares = ps; prepares = qs; commits = cs })

-- The queues, with the messages below the new number dropped; `none` for no change.
skip_to : TboQueue → Either InvalidSeqNo ℕ → Result (Option TboQueue)
skip_to t (left _) = ok (some (clear_queues t))
skip_to t (right limit) =
    if limit == 0
    then ok none
    else if leb (length t.pre_prepares) limit
    then ok (some (clear_queues t))
    else (drain_queues t limit >>= λ t'. ok (some t'))

unfoldable pub install_sequence_number : Consensus → SeqNo → Result Consensus
unfolding skip_to clear_queues drain_queues
install_sequence_number c seq = do
  skipped ← skip_to c.tbo (index seq c.tbo.curr_seq)
  elim skipped [
    | none ↦ ok c
    | some t ↦ ok (record c { tbo = record t { curr_seq = seq; get_queue = true }; phase = init })
  ]

-- The number of the newest `PRE-PREPARE` that was received, or the current one.
unfoldable pub recovered_seq : Consensus → List Stored → SeqNo
recovered_seq c pre_prepares = elim (last pre_prepares) [
  | some m ↦ m.message.seq
  | none ↦ c.tbo.curr_seq
]

unfoldable pub install_new_phase : {S O : Type 0} → Consensus → RecoveryState S O → Result Consensus
unfolding recovered_seq
install_new_phase c rs = do
  c' ← install_sequence_number c (recovered_seq c rs.declog.pre_prepares)
  ok (record c' { tbo = Tbo.signal c'.tbo })
