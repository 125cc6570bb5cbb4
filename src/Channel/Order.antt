-- ===== src/Channel/Order.antt =====
-- What comes out of a message channel (bft/communication/channel/mod.rs).
use bafomet.Base.{
  ℕ, Bool, true, false, if◌then◌else◌, map, select, some, List, [], ◌∷◌, ◌++◌, ◌≡◌, refl, ap, sym,
  ◌∙◌,
}
use mathlib.Core.List.{append-nil, append_assoc}
use bafomet.Message.{Header}
use bafomet.Message.System.{
  SystemMessage, request, reply, consensus, cst, view_change_msg, forwarded_requests,
}
use bafomet.Replica.Types.{
  Incoming, system, timeout, execution_finished, execution_finished_with_appstate, connected_tx,
  connected_rx, disconnected_tx, disconnected_rx,
}
use bafomet.Channel.{
  Bounded, MessageChannel, Branch, from_consensus, from_requests, from_replies, from_other,
  new_message_channel, send_other, send_system, send, recv, queued, branch_of_system, branch_of,
  same_branch, Run, stop, sends, receives,
}
use bafomet.Channel.Branches.{
  at_branch, by_update, Puts, Takes, append_consensus, append_requests, append_replies,
  append_other, pop_consensus, pop_requests, pop_replies, pop_other,
}

select_first {ℓ} :
    {A : Type ℓ} (here : Bool) (m : A) (xs : List A)
    → (if here then m ∷ xs else xs) ≡ at_branch here m ++ xs
select_first true m xs = refl
select_first false m xs = refl

map_first {ℓ κ} :
    {A : Type ℓ} {T : Type κ} (here : Bool) (t : T) (ts : List T) (f : T → A)
    → map f (if here then t ∷ ts else ts) ≡ at_branch here (f t) ++ map f ts
map_first true t ts f = refl
map_first false t ts f = refl

module _ (B : Bounded) {S O P : Type 0} where
  send_other-Puts :
      (c next : MessageChannel B S O P) (m : Incoming S O P) (b : Branch)
      → send_other B c m ≡ some next
      → Puts B c from_other m b next
  unfolding send_other
  send_other-Puts c next m b e =
      by_update (Puts B c from_other m b) _ (B.send c.other m) next e
        (λ q sent. append_other B c m q b sent)

  send_system-Puts :
      (c next : MessageChannel B S O P) (h : Header) (m : SystemMessage S O P) (b : Branch)
      → send_system B c h m ≡ some next
      → Puts B c (branch_of_system m) (system h m) b next
  unfolding send_system branch_of_system
  send_system-Puts c next h (request m) b e =
      by_update (Puts B c from_requests (system h (request m)) b) _ (B.send c.requests (h, m)) next
        e (λ q sent. append_requests B c (h, m) q b sent)
  send_system-Puts c next h (reply m) b e =
      by_update (Puts B c from_replies (system h (reply m)) b) _ (B.send c.replies (h, m)) next e
        (λ q sent. append_replies B c (h, m) q b sent)
  send_system-Puts c next h (consensus m) b e =
      by_update (Puts B c from_consensus (system h (consensus m)) b) _ (B.send c.consensus (h, m))
        next e (λ q sent. append_consensus B c (h, m) q b sent)
  send_system-Puts c next h (cst m) b e = send_other-Puts c next _ b e
  send_system-Puts c next h (view_change_msg m) b e = send_other-Puts c next _ b e
  send_system-Puts c next h (forwarded_requests m) b e = send_other-Puts c next _ b e

  -- A message that is sent is put at the end of its own branch, and the others stay as they are.
  send-Puts :
      (c next : MessageChannel B S O P) (m : Incoming S O P) (b : Branch)
      → send B c m ≡ some next
      → Puts B c (branch_of m) m b next
  unfolding send branch_of
  send-Puts c next (system h m) b e = send_system-Puts c next h m b e
  send-Puts c next (timeout _) b e = send_other-Puts c next _ b e
  send-Puts c next (execution_finished _) b e = send_other-Puts c next _ b e
  send-Puts c next (execution_finished_with_appstate _ _) b e = send_other-Puts c next _ b e
  send-Puts c next (connected_tx _) b e = send_other-Puts c next _ b e
  send-Puts c next (connected_rx _) b e = send_other-Puts c next _ b e
  send-Puts c next (disconnected_tx _) b e = send_other-Puts c next _ b e
  send-Puts c next (disconnected_rx _) b e = send_other-Puts c next _ b e

  -- A message that is received is taken from the front of the branch that `select!` took.
  recv-Takes :
      (c next : MessageChannel B S O P) (at : Branch) (m : Incoming S O P) (b : Branch)
      → recv B c at ≡ some (m, next)
      → Takes B c at m b next
  unfolding recv
  recv-Takes c next from_consensus m b e =
      by_update (λ r. Takes B c from_consensus r.0 b r.1) _ (B.recv c.consensus) (m, next) e
        (λ r got. pop_consensus B c r.0 r.1 b got)
  recv-Takes c next from_requests m b e =
      by_update (λ r. Takes B c from_requests r.0 b r.1) _ (B.recv c.requests) (m, next) e
        (λ r got. pop_requests B c r.0 r.1 b got)
  recv-Takes c next from_replies m b e =
      by_update (λ r. Takes B c from_replies r.0 b r.1) _ (B.recv c.replies) (m, next) e
        (λ r got. pop_replies B c r.0 r.1 b got)
  recv-Takes c next from_other m b e =
      by_update (λ r. Takes B c from_other r.0 b r.1) _ (B.recv c.other) (m, next) e
        (λ r got. pop_other B c r.0 r.1 b got)

  -- The messages of a branch, among those that are sent and those that are received.
  abbrev pub sent_to : Branch → List (Incoming S O P) → List (Incoming S O P)
  sent_to b sent = select (λ m. same_branch b (branch_of m)) sent

  abbrev pub received_by : Branch → List (Branch × Incoming S O P) → List (Incoming S O P)
  received_by b received = map (λ r. r.1) (select (λ r. same_branch b r.0) received)

  run-queued :
      (b : Branch) (c last : MessageChannel B S O P) (sent : List (Incoming S O P))
      (received : List (Branch × Incoming S O P))
      → Run B c sent received last
      → queued B c b ++ sent_to b sent ≡ received_by b received ++ queued B last b
  run-queued b c last sent received (stop _) = append-nil _
  run-queued b c last sent received (sends _ next _ m sent' _ e run) =
      let here = same_branch b (branch_of m) in
      ap (λ xs. queued B c b ++ xs) (select_first here m (sent_to b sent'))
      ∙ sym (append_assoc (queued B c b) (at_branch here m) (sent_to b sent'))
      ∙ ap (λ xs. xs ++ sent_to b sent') (sym (send-Puts c next m b e))
      ∙ run-queued b next last sent' received run
  run-queued b c last sent received (receives _ next _ at m _ received' e run) =
      let here = same_branch b at in
      ap (λ xs. xs ++ sent_to b sent) (recv-Takes c next at m b e)
      ∙ append_assoc (at_branch here m) (queued B next b) (sent_to b sent)
      ∙ ap (λ xs. at_branch here m ++ xs) (run-queued b next last sent received' run)
      ∙ sym (append_assoc (at_branch here m) (received_by b received') (queued B last b))
      ∙ ap (λ xs. xs ++ queued B last b)
          (sym (map_first here (at, m) (select (λ r. same_branch b r.0) received') (λ r. r.1)))

  new_message_channel-queued :
      (bound : ℕ) (b : Branch)
      → queued B {S = S} {O = O} {P = P} (new_message_channel B bound) b ≡ []
  unfolding queued
  new_message_channel-queued bound from_consensus = ap (map _) (B.items-new_bounded bound)
  new_message_channel-queued bound from_requests = ap (map _) (B.items-new_bounded bound)
  new_message_channel-queued bound from_replies = ap (map _) (B.items-new_bounded bound)
  new_message_channel-queued bound from_other = B.items-new_bounded bound

  -- After any run of a new channel, whichever branches the receiver takes: for each branch, what
  -- was sent to it is what was received by it followed by what still waits there, in the same
  -- order. A message is neither lost nor duplicated, nor overtaken by another of its branch.
  pub run-first_out :
      (bound : ℕ) (b : Branch) (last : MessageChannel B S O P) (sent : List (Incoming S O P))
      (received : List (Branch × Incoming S O P))
      → Run B (new_message_channel B bound) sent received last
      → sent_to b sent ≡ received_by b received ++ queued B last b
  run-first_out bound b last sent received run =
      ap (λ xs. xs ++ sent_to b sent) (sym (new_message_channel-queued bound b))
      ∙ run-queued b (new_message_channel B bound) last sent received run
