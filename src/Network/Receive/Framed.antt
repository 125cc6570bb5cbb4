-- ===== src/Network/Receive/Framed.antt =====
-- What a node receives from the bytes of a peer (bft/communication/mod.rs).
use bafomet.Base.{
  ℕ, zero, suc, ◌<◌, ◌≤◌, Option, none, some, Option-cases, Result, ok, panic, subst, sym, ◌∙◌,
  ◌>>=◌, Bool-cases, false, if◌then◌else◌, List, [], ◌∷◌, ◌++◌, length, length-drop, length-take,
  take, drop, ◌≡◌, ◌⊎◌, inl, inr, refl, ap, arith,
}
use bafomet.Message.{NodeId, Header}
use bafomet.Message.Wire.{expect_ok}
use bafomet.Message.Framing.{header_length, deserialize_from}
use bafomet.Message.Framing.Bytes.{deserialize_from_long}
use bafomet.Replica.Types.{Incoming, system, disconnected_rx}
use bafomet.Network.Types.{SharedData}
use bafomet.Network.Receive.{AsyncRead, read_payload, read_both, receive_one, go_on, receive_loop}

drop-nil : (n : ℕ) → let none_left : List ℕ = [] in drop n none_left ≡ none_left
drop-nil zero = refl
drop-nil (suc n) = refl

drop_twice : (n k : ℕ) (xs : List ℕ) → (j : ℕ) × (drop n (drop k xs) ≡ drop j xs)
drop_twice n zero xs = (n, refl)
drop_twice n (suc k) [] = (0, drop-nil n)
drop_twice n (suc k) (x ∷ xs) = let (j, e) = drop_twice n k xs in (suc j, e)

module _ (R : AsyncRead) where
  read_cases :
      (r : R.Reader) (n : ℕ)
      → (R.read_exact r n ≡ none)
        ⊎ ((after : R.Reader) × (R.read_exact r n ≡ some (take n (R.incoming r), after))
            × (R.incoming after ≡ drop n (R.incoming r))
            × (n ≤ length (R.incoming r)))
  read_cases r n =
      let few_or_not : (length (R.incoming r) < n) ⊎ (n ≤ length (R.incoming r)) = omega arith in
      elim few_or_not [
        | inl few ↦ inl (R.read_exact-none r n few)
        | inr enough ↦
            let (after, read, rest) = R.read_exact-some r n enough in
            inr (after, read, rest, enough)
      ]

  -- A reader that has read more of the same bytes.
  abbrev pub IsBehind : R.Reader → R.Reader → Type 0
  IsBehind after r = (k : ℕ) × (R.incoming after ≡ drop k (R.incoming r))

  read-IsBehind :
      (after middle r : R.Reader) (n : ℕ)
      → R.incoming after ≡ drop n (R.incoming middle)
      → IsBehind middle r
      → IsBehind after r
  read-IsBehind after middle r n e (k, f) =
      let (j, g) = drop_twice n k (R.incoming r) in (j, e ∙ ap (drop n) f ∙ g)

  IsBehind-trans : (a b c : R.Reader) → IsBehind a b → IsBehind b c → IsBehind a c
  IsBehind-trans a b c (k, e) behind = read-IsBehind a b c k e behind

module _ (R : AsyncRead) {S O P : Type 0} (D : SharedData S O P) where
  -- A reader at a header that announces more than the buffer can hold.
  abbrev pub IsOverlong : R.Reader → Type 0
  IsOverlong r =
      (header : Header) × (header_length ≤ length (R.incoming r))
      × (deserialize_from (take header_length (R.incoming r)) ≡ ok header)
      × (R.reserves header.length ≡ false)

  -- A round that goes on has read at least a header, and one that panics was to read too much.
  abbrev Advances : R.Reader → Result (Option (Incoming S O P × R.Reader)) → Type 0
  Advances at round =
      (round ≡ ok none)
      ⊎ (round ≡ panic) × IsOverlong at
      ⊎ ((m : Incoming S O P) × (r : R.Reader) × (round ≡ ok (some (m, r)))
          × (length (R.incoming r) < length (R.incoming at))
          × IsBehind R r at)

  read_payload-Advances :
      (header : Header) (r at : R.Reader)
      → length (R.incoming r) < length (R.incoming at)
      → IsBehind R r at
      → Advances at (ok (read_payload R D header (R.read_exact r header.length)))
  unfolding read_payload
  read_payload-Advances header r at h behind = elim (read_cases R r header.length) [
    | inl few ↦ rw (few) (inl refl)
    | inr (after, read, rest, enough) ↦
        elim (Option-cases (D.deserialize_message (take header.length (R.incoming r)))) [
          | inl fails ↦ rw (read, fails) (inl refl)
          | inr (message, is) ↦
              let shorter : length (R.incoming after) < length (R.incoming at) =
                rw (rest, length-drop header.length (R.incoming r)) (omega (arith, h)) in
              let further = read-IsBehind R after r at header.length rest behind in
              rw (read, is) (inr (inr (system header message, after, refl, shorter, further)))
        ]
  ]

  reserve-Advances :
      (header : Header) (after r : R.Reader)
      → header_length ≤ length (R.incoming r)
      → deserialize_from (take header_length (R.incoming r)) ≡ ok header
      → length (R.incoming after) < length (R.incoming r)
      → IsBehind R after r
      → Advances r (
          if R.reserves header.length
          then ok (read_payload R D header (R.read_exact after header.length))
          else panic)
  reserve-Advances header after r enough is shorter behind =
      elim (Bool-cases (R.reserves header.length)) [
        | inl room ↦ rw room (read_payload-Advances header after r shorter behind)
        | inr full ↦
            let overlong : IsOverlong r = (header, enough, is, full) in
            rw full (inr (inl (refl, overlong)))
      ]

  receive_one-Advances : (r : R.Reader) → Advances r (receive_one R D r)
  unfolding receive_one read_both
  receive_one-Advances r = elim (read_cases R r header_length) [
    | inl few ↦ rw (few) (inl refl)
    | inr (after, read, rest, enough) ↦
        let front = take header_length (R.incoming r) in
        let full : header_length ≤ length front =
          rw (length-take header_length (R.incoming r)) (omega (arith, enough)) in
        let (header, is) = deserialize_from_long front full in
        let shorter : length (R.incoming after) < length (R.incoming r) =
          rw (rest, length-drop header_length (R.incoming r)) (omega (arith, enough)) in
        let round =
          ap (read_both R D) read
          ∙ ap
              (λ d. expect_ok d >>= (λ h.
                if R.reserves h.length
                then ok (read_payload R D h (R.read_exact after h.length))
                else panic))
              is in
        subst (Advances r) (sym round)
          (reserve-Advances header after r enough is shorter (header_length, rest))
  ]

  -- With more fuel than there are bytes to come the loop ends, whatever the bytes are: either what it
  -- posts ends with the message that the peer is disconnected; or it panics after what it posted, and
  -- then at a header among these bytes that announces a payload for which the buffer has no room.
  pub receive_loop_ends :
      (fuel : ℕ) (peer_id : NodeId) (r : R.Reader)
      → length (R.incoming r) < fuel
      → (ms : List (Incoming S O P)) × ((receive_loop R D fuel peer_id r
            ≡ some (ms ++ (disconnected_rx (some peer_id) ∷ []), ok tt))
          ⊎ (receive_loop R D fuel peer_id r ≡ some (ms, panic))
            × (at : R.Reader) × IsOverlong at
            × IsBehind R at r)
  unfolding receive_loop go_on
  receive_loop_ends zero peer_id r h = absurd (omega arith)
  receive_loop_ends (suc fuel) peer_id r h = elim (receive_one-Advances r) [
    | inl over ↦ ([], inl (ap (go_on R D peer_id (receive_loop R D fuel peer_id)) over))
    | inr (inl (blown, overlong)) ↦ (
      [],
      inr (ap (go_on R D peer_id (receive_loop R D fuel peer_id)) blown, r, overlong, (0, refl)),
    )
    | inr (inr (m, after, one, shorter, behind)) ↦
        let (ms, rest) = receive_loop_ends fuel peer_id after (omega arith) in
        elim rest [
          | inl e ↦ (m ∷ ms, inl (rw (one, e) refl))
          | inr (e, at, overlong, further) ↦ (
            m ∷ ms,
            inr (rw (one, e) refl, at, overlong, IsBehind-trans R at after r further behind),
          )
        ]
  ]
