-- ===== src/Network/Samples.antt =====
-- Node 0 among the replicas 0 to 3, for the tests, with stand-ins for the sockets of other packages.
use bafomet.Base.{
  ℕ, Bool, leb, ◌^◌, ◌<◌, ◌≤◌, true, false, if◌then◌else◌, ltb, Option, none, some, Result, ok,
  List, [], ◌∷◌, length, take, drop, HashMap, ◌≡◌, refl, arith,
}
use bafomet.Message.System.{SystemMessage, request}
use bafomet.Message.Samples.{keyed, kept}
use bafomet.Network.Types.{SharedData, server, Address, Node, NodeConfig}
use bafomet.Network.Receive.{AsyncRead}
use bafomet.Network.Connect.{Dialer}
use bafomet.Prng.{State}

-- A reader is the bytes that are still to come.
abbrev pub read_bytes : List ℕ → ℕ → Option (List ℕ × List ℕ)
read_bytes r n = if ltb (length r) n then none else some (take n r, drop n r)

pub read_bytes-some :
    (r : List ℕ) (n : ℕ)
    → n ≤ length r
    → (after : List ℕ) × (read_bytes r n ≡ some (take n r, after)) × (after ≡ drop n r)
read_bytes-some r n h =
    let enough : ltb (length r) n ≡ false = ground (arith, h) in (drop n r, rw (enough) refl, refl)

pub read_bytes-none : (r : List ℕ) (n : ℕ) → length r < n → read_bytes r n ≡ none
read_bytes-none r n h = let few : ltb (length r) n ≡ true = ground (arith, h) in rw (few) refl

-- The buffer has room for 2 ^ 20 bytes.
abbrev pub has_room : ℕ → Bool
has_room n = leb n (2 ^ 20)

pub has_room-overflow : (n : ℕ) → 2 ^ 63 < n → has_room n ≡ false
has_room-overflow n h = ground (arith, h)

abbrev pub heard : AsyncRead
heard = record {
  Reader = List ℕ;
  read_exact = read_bytes;
  incoming = λ r. r;
  reserves = has_room;
  reserves-overflow = has_room-overflow;
  read_exact-some = read_bytes-some;
  read_exact-none = read_bytes-none;
}

-- A request is the one byte of its operation, and nothing else is sent.
abbrev pub to_bytes : SystemMessage ℕ ℕ ℕ → Result (List ℕ)
to_bytes (request m) = ok (m.operation ∷ [])
to_bytes _ = ok []

abbrev pub from_bytes : List ℕ → Option (SystemMessage ℕ ℕ ℕ)
from_bytes (b ∷ []) = some (request (record { operation = b }))
from_bytes _ = none

abbrev pub numbers : SharedData ℕ ℕ ℕ
numbers = record { serialize_message = to_bytes; deserialize_message = from_bytes }

abbrev pub seed : State
seed = record { s0 = 1; s1 = 2; s2 = 3; s3 = 4 }

abbrev pub addresses : HashMap Address
addresses = (0, (10, "a")) ∷ (1, (11, "b")) ∷ (2, (12, "c")) ∷ (3, (13, "d")) ∷ []

-- It is connected to node 1, by the socket 7.
abbrev pub node : Node keyed
node = record {
  id = 0;
  first_cli = 4;
  rng = seed;
  shared = record { my_key = 100; peer_keys = [] };
  peer_tx = server ((1, 7) ∷ []);
  peer_addrs = addresses;
}

abbrev pub config : NodeConfig keyed
config = record { n = 4; f = 1; id = 0; first_cli = 4; addrs = addresses; pk = []; sk = 100 }

-- The third attempt connects, and the handshake succeeds.
abbrev pub third : ℕ → Option ℕ
third k = if ltb k 2 then none else some k

abbrev pub dialer : Dialer kept
dialer = record { Stream = ℕ; connect = λ addr k. third k; handshake = λ addr s. some [] }
