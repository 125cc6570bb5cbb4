-- ===== src/Client/Votes/Backed.antt =====
-- What is delivered came after more than f alike replies (bft/core/client/mod.rs). Replies are compared
-- by the digest in their headers, as the code does; no digest is recomputed from a payload.
use bafomet.Base.{
  ℕ, ◌+◌, ◌-◌, ◌≤◌, ◌<◌, ◌==◌, ◌&&◌, ltb, Option, none, some, Option-cases, List, [], ◌∷◌, length,
  select, HashMap, get, remove, get-insert, get-remove, ◌≡◌, ◌≢◌, arith, inl, inr, Bool-cases,
}
use bafomet.Message.{Digest, Header, ReplyMessage}
use bafomet.Core.Params.{SystemParams}
use bafomet.Client.Votes.{
  ReplicaVotes, Receiver, delivered_keys, remove_votes, collect_garbage, entry, add_vote,
  count_reply, receive_reply,
}

-- A reply by the digest of its request and the digest in its header.
abbrev pub Replied : Type 0
Replied = Digest × Digest

-- How many replies to the request `d` had the digest `e` in their headers.
abbrev pub alike : Digest → Digest → List Replied → ℕ
alike d e replies = length (select (λ r. r.0 == d && r.1 == e) replies)

-- Every count is of replies that came in.
abbrev pub IsBacked : List Replied → HashMap ReplicaVotes → Type 0
IsBacked replies votes =
    (d : Digest) (v : ReplicaVotes) → get d votes ≡ some v → v.count ≤ alike d v.digest replies

remove_votes-IsBacked :
    (replies : List Replied) (ds : List Digest) (votes : HashMap ReplicaVotes)
    → IsBacked replies votes
    → IsBacked replies (remove_votes ds votes)
unfolding remove_votes
remove_votes-IsBacked replies [] votes b = b
remove_votes-IsBacked replies (k ∷ ds) votes b =
    remove_votes-IsBacked replies ds (remove k votes)
      (λ d v e. ground (arith, e, get-remove d k votes, b d v))

collect_garbage-IsBacked :
    (replies : List Replied) (gc_dur : ℕ) (params : SystemParams) (now : ℕ) (r : Receiver)
    → IsBacked replies r.votes
    → IsBacked replies (collect_garbage gc_dur params now r).votes
unfolding collect_garbage
collect_garbage-IsBacked replies gc_dur params now r b =
    elim (Bool-cases (ltb gc_dur (now - r.earlier))) [
      | inl e ↦ rw e (remove_votes-IsBacked replies (delivered_keys params.f r.votes) r.votes b)
      | inr e ↦ rw e b
    ]

entry_backed :
    (replies : List Replied) (h : Header) (d : Digest) (votes : HashMap ReplicaVotes)
    → IsBacked replies votes
    → (entry d h votes).count ≤ alike d (entry d h votes).digest replies
unfolding entry
entry_backed replies h d votes b = elim (Option-cases (get d votes)) [
  | inl e ↦ ground (arith, e)
  | inr (v, e) ↦ ground (arith, e, b d v e)
]

module _ {P : Type 0} where
  -- What may be delivered: the payload of the reply, to its request, after more than f replies to
  -- that request with the same digest in their headers.
  abbrev pub IsDelivered :
      SystemParams → List Replied → Header → ReplyMessage P → Option (Digest × P) → Type 0
  IsDelivered params replies h m none = Unit
  IsDelivered params replies h m (some (d, payload)) =
      (d ≡ m.digest) × (payload ≡ m.payload) × (params.f < alike m.digest h.digest replies)

  count_reply-IsDelivered :
      (params : SystemParams) (replies : List Replied) (h : Header) (m : ReplyMessage P)
      (votes : HashMap ReplicaVotes)
      → IsBacked replies votes
      → IsBacked ((m.digest, h.digest) ∷ replies) (count_reply params h m votes).1
        × IsDelivered params ((m.digest, h.digest) ∷ replies) h m (count_reply params h m votes).0
  unfolding count_reply add_vote
  count_reply-IsDelivered params replies h m votes b =
      let known = entry_backed replies h m.digest votes b in
      (
        λ d v e.
            let new = get-insert d m.digest (entry m.digest h votes) votes in
            let more = get-insert d m.digest (add_vote h (entry m.digest h votes)) votes in
            ground (arith, e, known, new, more, b d v),
        ground (arith, known),
      )

  -- If every count so far is of replies that came in, so it is after one more reply, whatever votes
  -- are collected; and if something is delivered, then it is the payload of this reply, to the request
  -- that the reply names, and more than f replies to that request, this one included, had the same
  -- digest in their headers.
  pub receive_reply-IsDelivered :
      (gc_dur : ℕ) (params : SystemParams) (now : ℕ) (h : Header) (m : ReplyMessage P)
      (r : Receiver) (replies : List Replied)
      → IsBacked replies r.votes
      → IsBacked ((m.digest, h.digest) ∷ replies) (receive_reply gc_dur params now h m r).1.votes
        × IsDelivered params
            ((m.digest, h.digest) ∷ replies)
            h
            m
            (receive_reply gc_dur params now h m r).0
  unfolding receive_reply
  receive_reply-IsDelivered gc_dur params now h m r replies b =
      count_reply-IsDelivered params replies h m (collect_garbage gc_dur params now r).votes
        (collect_garbage-IsBacked replies gc_dur params now r b)

  -- A first reply with another digest keeps the replies after it from being counted: while no votes
  -- are collected, a reply whose header's digest differs from the first one's is not delivered and
  -- leaves the vote as it was, so that however many alike follow they do not count.
  pub receive_reply_first :
      (gc_dur : ℕ) (params : SystemParams) (now : ℕ) (h : Header) (m : ReplyMessage P)
      (r : Receiver) (v : ReplicaVotes)
      → now ≤ r.earlier + gc_dur
      → get m.digest r.votes ≡ some v
      → v.digest ≢ h.digest
      → ((receive_reply gc_dur params now h m r).0 ≡ none)
        × (get m.digest (receive_reply gc_dur params now h m r).1.votes ≡ some v)
  unfolding receive_reply collect_garbage count_reply entry add_vote
  receive_reply_first gc_dur params now h m r v t e n =
      ground (arith, t, e, n, get-insert m.digest m.digest v r.votes)
