-- ===== src/Client/Votes.antt =====
-- How a client counts the replies to its requests: `message_recv_task` (bft/core/client/mod.rs).
pub mod Backed
use bafomet.Base.{
  ℕ, ◌+◌, ◌-◌, Bool, ltb, ◌==◌, if◌then◌else◌, Option, none, some, List, [], ◌∷◌, HashMap, get,
  insert, remove,
}
use bafomet.Message.{Digest, Header, ReplyMessage}
use bafomet.Core.Params.{SystemParams}

pub record ReplicaVotes : Type 0 where
  pub count : ℕ
  pub digest : Digest

-- The local variables of the task; an `Instant` is a number of nanoseconds.
pub record Receiver : Type 0 where
  pub earlier : ℕ
  pub votes : HashMap ReplicaVotes

-- The keys of the votes that were delivered.
unfoldable pub delivered_keys : ℕ → HashMap ReplicaVotes → List Digest
delivered_keys f [] = []
delivered_keys f ((d, v) ∷ votes) =
    let rest = delivered_keys f votes in if ltb f v.count then d ∷ rest else rest

unfoldable pub remove_votes : List Digest → HashMap ReplicaVotes → HashMap ReplicaVotes
remove_votes [] votes = votes
remove_votes (d ∷ ds) votes = remove_votes ds (remove d votes)

-- The collection of old votes.
unfoldable pub collect_garbage : ℕ → SystemParams → ℕ → Receiver → Receiver
unfolding delivered_keys remove_votes
collect_garbage gc_dur params now r = record {
  earlier = now;
  votes =
      if ltb gc_dur (now - r.earlier)
      then remove_votes (delivered_keys params.f r.votes) r.votes
      else r.votes;
}

-- `votes.entry(digest).or_insert_with(..)`
unfoldable pub entry : Digest → Header → HashMap ReplicaVotes → ReplicaVotes
entry digest h votes = elim (get digest votes) [
  | some v ↦ v
  | none ↦ record { count = 0; digest = h.digest }
]

-- The vote is counted if the digest in its header is the one that came first.
unfoldable pub add_vote : Header → ReplicaVotes → ReplicaVotes
add_vote h v = if v.digest == h.digest then record v { count = v.count + 1 } else v

-- A reply with the votes collected: what is delivered, and the votes.
unfoldable pub count_reply :
    {P : Type 0}
    → SystemParams
    → Header
    → ReplyMessage P
    → HashMap ReplicaVotes
    → Option (Digest × P) × HashMap ReplicaVotes
unfolding entry add_vote
count_reply params h m votes =
    let v = entry m.digest h votes in
    let v' = add_vote h v in
    if ltb params.f v.count then (none, insert m.digest v votes) else (
      if ltb params.f v'.count then some (m.digest, m.payload) else none,
      insert m.digest v' votes,
    )

-- A reply that comes in at the time `now`.
unfoldable pub receive_reply :
    {P : Type 0}
    → ℕ
    → SystemParams
    → ℕ
    → Header
    → ReplyMessage P
    → Receiver
    → Option (Digest × P) × Receiver
unfolding collect_garbage count_reply
receive_reply gc_dur params now h m r =
    let r' = collect_garbage gc_dur params now r in
    let c = count_reply params h m r'.votes in (c.0, record r' { votes = c.1 })
