-- ===== src/Channel/Branches.antt =====
-- One branch of a message channel, when a message is put in and when one is taken (bft/communication/channel/mod.rs).
use bafomet.Base.{
  Bool, if◌then◌else◌, map, Option, some, List, [], ◌∷◌, ◌++◌, ◌≡◌, refl, subst, ap, sym, ◌∙◌,
}
use mathlib.Core.Option
use mathlib.Core.List.{map-append, append-nil}
use bafomet.Message.{Header, RequestMessage, ReplyMessage, ConsensusMessage}
use bafomet.Message.System.{request, reply, consensus}
use bafomet.Replica.Types.{Incoming, system}
use bafomet.Channel.{
  Bounded, MessageChannel, Branch, from_consensus, from_requests, from_replies, from_other, queued,
  same_branch,
}

-- A message where it belongs, and nothing elsewhere.
abbrev pub at_branch {ℓ} : {A : Type ℓ} → Bool → A → List A
at_branch here m = if here then m ∷ [] else []

-- Whatever holds of each update holds of what is got by one.
pub by_update {κ} :
    {T C : Type 0} (P : C → Type κ) (update : T → C) (r : Option T) (next : C)
    → Option.map update r ≡ some next
    → ((t : T) → r ≡ some t → P (update t))
    → P next
by_update P update r next e each =
    let (t, got, made) = (Option.map-eq-some_iff update r).0 e in subst P made (each t got)

module _ (B : Bounded) {S O P : Type 0} where
  items-map :
      {T : Type 0} (f : T → Incoming S O P) (q after : B.Queue T) (t : T)
      → B.send q t ≡ some after
      → map f (B.items after) ≡ map f (B.items q) ++ (f t ∷ [])
  items-map f q after t e =
      ap (map f) (B.items-send q after t e) ∙ map-append f (B.items q) (t ∷ [])

  items-recv_map :
      {T : Type 0} (f : T → Incoming S O P) (q after : B.Queue T) (t : T)
      → B.recv q ≡ some (t, after)
      → map f (B.items q) ≡ f t ∷ map f (B.items after)
  items-recv_map f q after t e = ap (map f) (B.items-recv q after t e)

  -- The branch `b` after a message was put at the end of the branch `at`.
  abbrev pub Puts :
      MessageChannel B S O P → Branch → Incoming S O P → Branch → MessageChannel B S O P → Type 0
  Puts c at m b next = queued B next b ≡ queued B c b ++ at_branch (same_branch b at) m

  -- The branch `b` after a message was taken from the front of the branch `at`.
  abbrev pub Takes :
      MessageChannel B S O P → Branch → Incoming S O P → Branch → MessageChannel B S O P → Type 0
  Takes c at m b next = queued B c b ≡ at_branch (same_branch b at) m ++ queued B next b

  pub append_consensus :
      (c : MessageChannel B S O P) (t : Header × ConsensusMessage)
      (q : B.Queue (Header × ConsensusMessage)) (b : Branch)
      → B.send c.consensus t ≡ some q
      → Puts c from_consensus (system t.0 (consensus t.1)) b (record c { consensus = q })
  unfolding queued
  append_consensus c t q from_consensus e =
      items-map (λ r. system r.0 (consensus r.1)) c.consensus q t e
  append_consensus c t q from_requests e = sym (append-nil _)
  append_consensus c t q from_replies e = sym (append-nil _)
  append_consensus c t q from_other e = sym (append-nil _)

  pub pop_consensus :
      (c : MessageChannel B S O P) (t : Header × ConsensusMessage)
      (q : B.Queue (Header × ConsensusMessage)) (b : Branch)
      → B.recv c.consensus ≡ some (t, q)
      → Takes c from_consensus (system t.0 (consensus t.1)) b (record c { consensus = q })
  unfolding queued
  pop_consensus c t q from_consensus e =
      items-recv_map (λ r. system r.0 (consensus r.1)) c.consensus q t e
  pop_consensus c t q from_requests e = refl
  pop_consensus c t q from_replies e = refl
  pop_consensus c t q from_other e = refl

  pub append_requests :
      (c : MessageChannel B S O P) (t : Header × RequestMessage O)
      (q : B.Queue (Header × RequestMessage O)) (b : Branch)
      → B.send c.requests t ≡ some q
      → Puts c from_requests (system t.0 (request t.1)) b (record c { requests = q })
  unfolding queued
  append_requests c t q from_consensus e = sym (append-nil _)
  append_requests c t q from_requests e = items-map (λ r. system r.0 (request r.1)) c.requests q t e
  append_requests c t q from_replies e = sym (append-nil _)
  append_requests c t q from_other e = sym (append-nil _)

  pub pop_requests :
      (c : MessageChannel B S O P) (t : Header × RequestMessage O)
      (q : B.Queue (Header × RequestMessage O)) (b : Branch)
      → B.recv c.requests ≡ some (t, q)
      → Takes c from_requests (system t.0 (request t.1)) b (record c { requests = q })
  unfolding queued
  pop_requests c t q from_consensus e = refl
  pop_requests c t q from_requests e =
      items-recv_map (λ r. system r.0 (request r.1)) c.requests q t e
  pop_requests c t q from_replies e = refl
  pop_requests c t q from_other e = refl

  pub append_replies :
      (c : MessageChannel B S O P) (t : Header × ReplyMessage P)
      (q : B.Queue (Header × ReplyMessage P)) (b : Branch)
      → B.send c.replies t ≡ some q
      → Puts c from_replies (system t.0 (reply t.1)) b (record c { replies = q })
  unfolding queued
  append_replies c t q from_consensus e = sym (append-nil _)
  append_replies c t q from_requests e = sym (append-nil _)
  append_replies c t q from_replies e = items-map (λ r. system r.0 (reply r.1)) c.replies q t e
  append_replies c t q from_other e = sym (append-nil _)

  pub pop_replies :
      (c : MessageChannel B S O P) (t : Header × ReplyMessage P)
      (q : B.Queue (Header × ReplyMessage P)) (b : Branch)
      → B.recv c.replies ≡ some (t, q)
      → Takes c from_replies (system t.0 (reply t.1)) b (record c { replies = q })
  unfolding queued
  pop_replies c t q from_consensus e = refl
  pop_replies c t q from_requests e = refl
  pop_replies c t q from_replies e = items-recv_map (λ r. system r.0 (reply r.1)) c.replies q t e
  pop_replies c t q from_other e = refl

  pub append_other :
      (c : MessageChannel B S O P) (t : Incoming S O P) (q : B.Queue (Incoming S O P)) (b : Branch)
      → B.send c.other t ≡ some q
      → Puts c from_other t b (record c { other = q })
  unfolding queued
  append_other c t q from_consensus e = sym (append-nil _)
  append_other c t q from_requests e = sym (append-nil _)
  append_other c t q from_replies e = sym (append-nil _)
  append_other c t q from_other e = B.items-send c.other q t e

  pub pop_other :
      (c : MessageChannel B S O P) (t : Incoming S O P) (q : B.Queue (Incoming S O P)) (b : Branch)
      → B.recv c.other ≡ some (t, q)
      → Takes c from_other t b (record c { other = q })
  unfolding queued
  pop_other c t q from_consensus e = refl
  pop_other c t q from_requests e = refl
  pop_other c t q from_replies e = refl
  pop_other c t q from_other e = B.items-recv c.other q t e
