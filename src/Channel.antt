-- ===== src/Channel.antt =====
-- bft/communication/channel/mod.rs: the channel of a node, four bounded channels for four kinds of
-- messages. The bounded channels are those of other packages (futures, flume, async-channel): a
-- parameter, with the laws of a queue.
mod Branches
pub mod Order
mod Tests
use bafomet.Base.{ℕ, Bool, true, false, map, Option, none, some, List, [], ◌∷◌, ◌++◌, ◌≡◌}
use mathlib.Core.Option
use bafomet.Message.{Header, RequestMessage, ReplyMessage, ConsensusMessage}
use bafomet.Message.System.{
  SystemMessage, request, reply, consensus, cst, view_change_msg, forwarded_requests,
}
use bafomet.Replica.Types.{
  Incoming, system, timeout, execution_finished, execution_finished_with_appstate, connected_tx,
  connected_rx, disconnected_tx, disconnected_rx,
}

-- A bounded channel that is not closed. A `send` that has to wait and a `recv` that has to wait
-- are `none`.
pub record Bounded : Type 1 where
  pub Queue : Type 0 → Type 0
  pub new_bounded : {T : Type 0} → ℕ → Queue T
  pub send : {T : Type 0} → Queue T → T → Option (Queue T)
  pub recv : {T : Type 0} → Queue T → Option (T × Queue T)
  pub items : {T : Type 0} → Queue T → List T
  pub items-new_bounded : {T : Type 0} (bound : ℕ) → items (new_bounded {T = T} bound) ≡ []
  pub items-send :
      {T : Type 0} (q after : Queue T) (t : T)
      → send q t ≡ some after
      → items after ≡ items q ++ (t ∷ [])
  pub items-recv :
      {T : Type 0} (q after : Queue T) (t : T)
      → recv q ≡ some (t, after)
      → items q ≡ t ∷ items after
  pub recv-none : {T : Type 0} (q : Queue T) → recv q ≡ none → items q ≡ []

-- Both halves of a message channel.
pub record MessageChannel (B : Bounded) (S O P : Type 0) : Type 0 where
  pub other : B.Queue (Incoming S O P)
  pub requests : B.Queue (Header × RequestMessage O)
  pub replies : B.Queue (Header × ReplyMessage P)
  pub consensus : B.Queue (Header × ConsensusMessage)

-- The branches of `select!` in `recv`.
pub data Branch : Type 0 where
  from_consensus from_requests from_replies from_other : Branch

module _ (B : Bounded) {S O P : Type 0} where
  -- `new_message_channel`
  abbrev pub new_message_channel : ℕ → MessageChannel B S O P
  new_message_channel bound = record {
    other = B.new_bounded bound;
    requests = B.new_bounded bound;
    replies = B.new_bounded bound;
    consensus = B.new_bounded bound;
  }

  send_other : MessageChannel B S O P → Incoming S O P → Option (MessageChannel B S O P)
  send_other c m = Option.map (λ q. record c { other = q }) (B.send c.other m)

  send_system :
      MessageChannel B S O P → Header → SystemMessage S O P → Option (MessageChannel B S O P)
  unfolding send_other
  send_system c h (request m) =
      Option.map (λ q. record c { requests = q }) (B.send c.requests (h, m))
  send_system c h (reply m) = Option.map (λ q. record c { replies = q }) (B.send c.replies (h, m))
  send_system c h (consensus m) =
      Option.map (λ q. record c { consensus = q }) (B.send c.consensus (h, m))
  send_system c h (cst m) = send_other c (system h (cst m))
  send_system c h (view_change_msg m) = send_other c (system h (view_change_msg m))
  send_system c h (forwarded_requests m) = send_other c (system h (forwarded_requests m))

  -- `MessageChannelTx::send`
  unfoldable pub send : MessageChannel B S O P → Incoming S O P → Option (MessageChannel B S O P)
  unfolding send_system send_other
  send c (system h m) = send_system c h m
  send c (timeout k) = send_other c (timeout k)
  send c (execution_finished replies) = send_other c (execution_finished replies)
  send c (execution_finished_with_appstate replies state) =
      send_other c (execution_finished_with_appstate replies state)
  send c (connected_tx id) = send_other c (connected_tx id)
  send c (connected_rx id) = send_other c (connected_rx id)
  send c (disconnected_tx id) = send_other c (disconnected_tx id)
  send c (disconnected_rx id) = send_other c (disconnected_rx id)

  -- `MessageChannelRx::recv`, when `select!` takes the given branch, which it may if that channel
  -- does not have to wait.
  unfoldable pub recv :
      MessageChannel B S O P → Branch → Option (Incoming S O P × MessageChannel B S O P)
  recv c from_consensus =
      Option.map (λ r. (system r.0.0 (consensus r.0.1), record c { consensus = r.1 }))
        (B.recv c.consensus)
  recv c from_requests =
      Option.map (λ r. (system r.0.0 (request r.0.1), record c { requests = r.1 }))
        (B.recv c.requests)
  recv c from_replies =
      Option.map (λ r. (system r.0.0 (reply r.0.1), record c { replies = r.1 })) (B.recv c.replies)
  recv c from_other = Option.map (λ r. (r.0, record c { other = r.1 })) (B.recv c.other)

  -- What waits behind each branch.
  unfoldable pub queued : MessageChannel B S O P → Branch → List (Incoming S O P)
  queued c from_consensus = map (λ r. system r.0 (consensus r.1)) (B.items c.consensus)
  queued c from_requests = map (λ r. system r.0 (request r.1)) (B.items c.requests)
  queued c from_replies = map (λ r. system r.0 (reply r.1)) (B.items c.replies)
  queued c from_other = B.items c.other

-- The branch that a message is sent to.
branch_of_system : {S O P : Type 0} → SystemMessage S O P → Branch
branch_of_system (request _) = from_requests
branch_of_system (reply _) = from_replies
branch_of_system (consensus _) = from_consensus
branch_of_system _ = from_other

unfoldable pub branch_of : {S O P : Type 0} → Incoming S O P → Branch
unfolding branch_of_system
branch_of (system _ m) = branch_of_system m
branch_of _ = from_other

abbrev pub same_branch : Branch → Branch → Bool
same_branch from_consensus from_consensus = true
same_branch from_requests from_requests = true
same_branch from_replies from_replies = true
same_branch from_other from_other = true
same_branch _ _ = false

-- A run of the channel: what is sent, and what is received by which branch, each in order.
pub data Run (B : Bounded) {S O P : Type 0}
    : MessageChannel B S O P
      → List (Incoming S O P)
      → List (Branch × Incoming S O P)
      → MessageChannel B S O P
      → Type 0 where
  stop : (c : MessageChannel B S O P) → Run B c [] [] c
  sends :
      (c next last : MessageChannel B S O P) (m : Incoming S O P) (sent : List (Incoming S O P))
      (received : List (Branch × Incoming S O P))
      → send B c m ≡ some next
      → Run B next sent received last
      → Run B c (m ∷ sent) received last
  receives :
      (c next last : MessageChannel B S O P) (b : Branch) (m : Incoming S O P)
      (sent : List (Incoming S O P)) (received : List (Branch × Incoming S O P))
      → recv B c b ≡ some (m, next)
      → Run B next sent received last
      → Run B c sent ((b, m) ∷ received) last
