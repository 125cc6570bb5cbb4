-- ===== src/Message.antt =====
-- bft/communication/message/mod.rs: the headers, the stored messages, and the messages of clients
-- and of the consensus protocol.
pub mod System
pub mod Framing
pub mod Wire
pub mod Samples
use bafomet.Base.{ℕ, Bool, ◌==◌, Option, none, some, List, []}
use bafomet.Ordering.SeqNo.{SeqNo, Orderable}

-- `NodeId`, a `u32`.
abbrev pub NodeId : Type 0
NodeId = ℕ

-- `Digest`, an array of bytes of fixed length, read as a number; `Digest::from_bytes` of zeros
-- is 0.
abbrev pub Digest : Type 0
Digest = ℕ

-- `Header`, without the padding field. The signature too is its bytes, read as a number.
pub record Header : Type 0 where
  pub version : ℕ
  pub from : NodeId
  pub to : NodeId
  pub nonce : ℕ
  pub length : ℕ
  pub digest : Digest
  pub signature : ℕ

pub record StoredMessage {ℓ} (M : Type ℓ) : Type ℓ where
  pub header : Header
  pub message : M

pub record RequestMessage (O : Type 0) : Type 0 where
  pub operation : O

pub record ReplyMessage (P : Type 0) : Type 0 where
  pub digest : Digest
  pub payload : P

pub data ConsensusMessageKind : Type 0 where
  pre_prepare : List Digest → ConsensusMessageKind
  prepare : Digest → ConsensusMessageKind
  commit : Digest → ConsensusMessageKind

pub record ConsensusMessage : Type 0 where
  pub seq : SeqNo
  pub view : SeqNo
  pub kind : ConsensusMessageKind

instance abbrev pub consensus_message_orderable : Orderable ConsensusMessage
consensus_message_orderable = record { sequence_number = λ m. m.seq }

proposed_digest : ConsensusMessageKind → Digest → Option Bool
proposed_digest (pre_prepare _) digest = none
proposed_digest (prepare d) digest = some (d == digest)
proposed_digest (commit d) digest = some (d == digest)

unfoldable pub has_proposed_digest : ConsensusMessage → Digest → Option Bool
unfolding proposed_digest
has_proposed_digest m digest = proposed_digest m.kind digest

take_requests : ConsensusMessage → ConsensusMessageKind → Option (List Digest) × ConsensusMessage
take_requests m (pre_prepare v) = (some v, record m { kind = pre_prepare [] })
take_requests m _ = (none, m)

-- The message that is left behind is returned beside the requests.
unfoldable pub take_proposed_requests : ConsensusMessage → Option (List Digest) × ConsensusMessage
unfolding take_requests
take_proposed_requests m = take_requests m m.kind
