-- ===== src/Network/Receive/InOrder.antt =====
-- The messages that a node receives from what a peer wrote (bft/communication/mod.rs).
use bafomet.Base.{
  ℕ, zero, suc, ◌+◌, ◌<◌, ◌≤◌, Option, none, some, Result, ok, panic, true, false, ◌^◌,
  if◌then◌else◌, ◌>>=◌, List, [], ◌∷◌, ◌++◌, length, length-append, take, drop, take-append_exact,
  drop-append_exact, map, All, ◌≡◌, refl, sym, ap, ◌∙◌, arith,
}
use mathlib.Core.Option
use mathlib.Core.List.{append_assoc, append-nil}
use bafomet.Message.{NodeId, Header}
use bafomet.Message.System.{SystemMessage}
use bafomet.Message.Wire.{WireMessage, expect_ok}
use bafomet.Message.Framing.{header_length, header_bytes}
use bafomet.Message.Framing.Bytes.{IsPacked, length-header_bytes, deserialize_from_exact}
use bafomet.Replica.Types.{Incoming, system, disconnected_rx}
use bafomet.Network.Types.{SharedData}
use bafomet.Network.Receive.{AsyncRead, read_payload, read_both, receive_one, go_on, receive_loop}

-- What `write_to` writes, one message after the other.
unfoldable pub written : List WireMessage → List ℕ
written [] = []
written (wm ∷ wms) = header_bytes wm.header ++ (wm.payload ++ written wms)

module _ (R : AsyncRead) where
  pub read_front :
      (r : R.Reader) (front rest : List ℕ)
      → R.incoming r ≡ front ++ rest
      → (after : R.Reader) × (R.read_exact r (length front) ≡ some (front, after))
        × (R.incoming after ≡ rest)
  read_front r front rest e =
      let enough : length front ≤ length (R.incoming r) =
        rw (e, length-append front rest) (omega arith) in
      let (after, read, left) = R.read_exact-some r (length front) enough in
      (
        after,
        read
            ∙ ap (λ bytes. some (bytes, after))
                (ap (take (length front)) e ∙ take-append_exact front rest),
        left ∙ ap (drop (length front)) e ∙ drop-append_exact front rest,
      )

module _ (R : AsyncRead) {S O P : Type 0} (D : SharedData S O P) where
  -- The header fits its bytes and says how long the payload is, which the buffer has room for, and
  -- the payload is read as the message.
  abbrev pub IsFrame : WireMessage × SystemMessage S O P → Type 0
  IsFrame (wm, m) =
      IsPacked wm.header
      × (wm.header.length ≡ length wm.payload)
      × (R.reserves (length wm.payload) ≡ true)
      × (D.deserialize_message wm.payload ≡ some m)

  read_payload-frame :
      (header : Header) (payload : List ℕ) (m : SystemMessage S O P) (after : R.Reader)
      → D.deserialize_message payload ≡ some m
      → read_payload R D header (some (payload, after)) ≡ some (system header m, after)
  unfolding read_payload
  read_payload-frame header payload m after e =
      ap (Option.map (λ message. (system header message, after))) e

  abbrev reserved :
      ℕ → Option (Incoming S O P × R.Reader) → Result (Option (Incoming S O P × R.Reader))
  reserved n round = if R.reserves n then ok round else panic

  receive_one-frame :
      (r : R.Reader) (wm : WireMessage) (m : SystemMessage S O P) (rest : List ℕ)
      → IsFrame (wm, m)
      → R.incoming r ≡ header_bytes wm.header ++ (wm.payload ++ rest)
      → (after : R.Reader) × (receive_one R D r ≡ ok (some (system wm.header m, after)))
        × (R.incoming after ≡ rest)
  unfolding receive_one read_both
  receive_one-frame r wm m rest (packed, long, room, is) e =
      let header = wm.header in
      let (middle, read_header, at_payload) =
        read_front R r (header_bytes header) (wm.payload ++ rest) e in
      let (after, read_rest, at_rest) = read_front R middle wm.payload rest at_payload in
      let parsed = deserialize_from_exact header packed in
      (
        after,
        ap (λ n. read_both R D (R.read_exact r n)) (sym (length-header_bytes header))
            ∙ ap (read_both R D) read_header
            ∙ ap
                (λ d.
                  expect_ok d
                  >>= (λ h. reserved h.length (read_payload R D h (R.read_exact middle h.length))))
                parsed
            ∙ ap (λ n. reserved n (read_payload R D header (R.read_exact middle n))) long
            ∙ ap
                (λ b.
                  if b
                  then ok (read_payload R D header (R.read_exact middle (length wm.payload)))
                  else panic)
                room
            ∙ ap (λ o. ok (read_payload R D header o)) read_rest
            ∙ ap ok (read_payload-frame header wm.payload m after is),
        at_rest,
      )

  receive_one_short :
      (r : R.Reader) → length (R.incoming r) < header_length → receive_one R D r ≡ ok none
  unfolding receive_one read_both
  receive_one_short r short = ap (read_both R D) (R.read_exact-none r header_length short)

  receive_one_overlong :
      (r : R.Reader) (header : Header) (rest : List ℕ)
      → IsPacked header
      → R.reserves header.length ≡ false
      → R.incoming r ≡ header_bytes header ++ rest
      → receive_one R D r ≡ panic
  unfolding receive_one read_both
  receive_one_overlong r header rest packed full e =
      let (middle, read_header, _) = read_front R r (header_bytes header) rest e in
      ap (λ n. read_both R D (R.read_exact r n)) (sym (length-header_bytes header))
      ∙ ap (read_both R D) read_header
      ∙ ap
          (λ d.
            expect_ok d
            >>= (λ h. reserved h.length (read_payload R D h (R.read_exact middle h.length))))
          (deserialize_from_exact header packed)
      ∙ ap
          (λ b.
            if b then ok (read_payload R D header (R.read_exact middle header.length)) else panic)
          full

  go_on-frame :
      (peer_id : NodeId) (next : R.Reader → Option (List (Incoming S O P) × Result (Unit {0})))
      (round : Result (Option (Incoming S O P × R.Reader))) (m : Incoming S O P) (r : R.Reader)
      (rest : List (Incoming S O P) × Result (Unit {0}))
      → round ≡ ok (some (m, r))
      → next r ≡ some rest
      → go_on R D peer_id next round ≡ some (m ∷ rest.0, rest.1)
  unfolding go_on
  go_on-frame peer_id next round m r rest one is =
      ap (go_on R D peer_id next) one ∙ ap (Option.map (λ x. (m ∷ x.0, x.1))) is

  -- The round that starts at a reader is the last one, whatever the rounds after it would do.
  abbrev EndsAt : NodeId → R.Reader → List (Incoming S O P) → Result (Unit {0}) → Type 0
  EndsAt peer_id r last result =
      (next : R.Reader → Option (List (Incoming S O P) × Result (Unit {0})))
      → go_on R D peer_id next (receive_one R D r) ≡ some (last, result)

  -- After whole messages the loop is as for what comes behind them.
  receive_loop-frames :
      (frames : List (WireMessage × SystemMessage S O P)) (tail : List ℕ) (fuel : ℕ)
      (peer_id : NodeId) (r : R.Reader) (last : List (Incoming S O P)) (result : Result (Unit {0}))
      → All (IsFrame) frames
      → ((after : R.Reader) → R.incoming after ≡ tail → EndsAt peer_id after last result)
      → R.incoming r ≡ written (map (λ f. f.0) frames) ++ tail
      → length (R.incoming r) < fuel
      → receive_loop R D fuel peer_id r
        ≡ some (map (λ f. system f.0.header f.1) frames ++ last, result)
  unfolding receive_loop written
  receive_loop-frames frames tail zero peer_id r last result all ends e enough =
      absurd (omega arith)
  receive_loop-frames [] tail (suc fuel) peer_id r last result all ends e enough =
      ends r e (receive_loop R D fuel peer_id)
  receive_loop-frames ((wm, m) ∷ frames) tail (suc fuel) peer_id r last result (frame, all) ends e
        enough =
      let rest = written (map (λ f. f.0) frames) ++ tail in
      let split =
        e
        ∙ append_assoc (header_bytes wm.header) _ tail
        ∙ ap (λ bytes. header_bytes wm.header ++ bytes) (append_assoc wm.payload _ tail) in
      let (after, one, left) = receive_one-frame r wm m rest frame split in
      let total : length (R.incoming r) ≡ header_length + (length wm.payload + length rest) =
        ap length split
        ∙ length-append (header_bytes wm.header) (wm.payload ++ rest)
        ∙ rw (length-header_bytes wm.header, length-append wm.payload rest) refl in
      let shorter : length (R.incoming after) < fuel = rw (left) (omega (arith, total, enough)) in
      go_on-frame peer_id (receive_loop R D fuel peer_id) (receive_one R D r) (system wm.header m)
        after _ one
        (receive_loop-frames frames tail fuel peer_id after last result all ends left shorter)

  -- A peer writes messages, one after the other, and then too little for another header before the
  -- connection ends. Each header fits its bytes and says how long its payload is, which the buffer
  -- of the node has room for, and the payload can be deserialized. With more fuel than there are
  -- bytes, the node receives exactly these messages, each with its header and in the order in which
  -- they were written, and then is told that the peer is disconnected.
  pub receive_loop-written :
      (frames : List (WireMessage × SystemMessage S O P)) (tail : List ℕ) (fuel : ℕ)
      (peer_id : NodeId) (r : R.Reader)
      → All (IsFrame) frames
      → length tail < header_length
      → R.incoming r ≡ written (map (λ f. f.0) frames) ++ tail
      → length (R.incoming r) < fuel
      → receive_loop R D fuel peer_id r
        ≡ some (
          map (λ f. system f.0.header f.1) frames ++ (disconnected_rx (some peer_id) ∷ []),
          ok tt,
        )
  unfolding go_on
  receive_loop-written frames tail fuel peer_id r all short e enough =
      receive_loop-frames frames tail fuel peer_id r _ (ok tt) all
        (λ after left next. ap (go_on R D peer_id next) (receive_one_short after (rw (left) short)))
        e enough

  -- A peer writes messages that the node can read, and then a header that announces a payload of more
  -- than 2 ^ 63 bytes, whatever comes after it. With more fuel than there are bytes, the node
  -- receives the messages in order, and then the task that receives from the peer panics: the node is
  -- not told that the peer is disconnected.
  pub receive_loop_overlong :
      (frames : List (WireMessage × SystemMessage S O P)) (header : Header) (tail : List ℕ)
      (fuel : ℕ) (peer_id : NodeId) (r : R.Reader)
      → All (IsFrame) frames
      → IsPacked header
      → 2 ^ 63 < header.length
      → R.incoming r ≡ written (map (λ f. f.0) frames) ++ (header_bytes header ++ tail)
      → length (R.incoming r) < fuel
      → receive_loop R D fuel peer_id r ≡ some (map (λ f. system f.0.header f.1) frames, panic)
  unfolding go_on
  receive_loop_overlong frames header tail fuel peer_id r all packed long e enough =
      let full = R.reserves-overflow header.length long in
      let ends =
        receive_loop-frames frames (header_bytes header ++ tail) fuel peer_id r [] panic all
          (λ after left next.
            ap (go_on R D peer_id next) (receive_one_overlong after header tail packed full left))
          e enough in
      ends ∙ ap (λ ms. some (ms, panic)) (append-nil (map (λ f. system f.0.header f.1) frames))
