-- ===== src/Log/Store/Requests.antt =====
-- Which requests a `Log` knows (bft/consensus/log/mod.rs).
use bafomet.Base.{
  true, ◌||◌, leb, ◌==◌, if◌then◌else◌, inl, inr, ◌⊎◌, none, some, is_some, Option-cases, List,
  Option, refl, length, take, HashMap, get, insert, contains_key, keys, get-insert, get-remove, All,
  All-map, ◌≡◌, arith, length-take, ap, subst, All-take, length-keys, keys-contains_key, leb→le,
}
use bafomet.Collections.{OrderedMap}
use bafomet.Crypto.{Hash, unique_digest}
use bafomet.Message.{Digest, Header, RequestMessage}
use bafomet.Log.Store.{
  StoredRequest, Log, insert_request, next_batch, has_request, find_request, take_request,
}

module _ {S O : Type 0} {R : OrderedMap (StoredRequest O)} where
  -- No request is both pending and being decided.
  abbrev pub IsDisjoint : Log S O R → Type 0
  IsDisjoint l = (d : Digest) → (get d l.deciding ≡ none) ⊎ (R.get d l.requests ≡ none)

  -- After a request has come in, it is known under its unique digest, and every other digest is
  -- known as before.
  pub find_request-insert_request :
      (H : Hash) (l : Log S O R) (h : Header) (m : RequestMessage O) (d : Digest)
      → find_request (insert_request H l h m) d ≡ (
          if unique_digest H h == d
          then some (record { header = h; message = m })
          else find_request l d)
  unfolding find_request insert_request
  find_request-insert_request H l h m d = ground (
    arith,
    get-remove d (unique_digest H h) l.deciding,
    R.get-insert d (unique_digest H h) (record { header = h; message = m }) l.requests,
  )

  pub insert_request-IsDisjoint :
      (H : Hash) (l : Log S O R) (h : Header) (m : RequestMessage O)
      → IsDisjoint l
      → IsDisjoint (insert_request H l h m)
  unfolding insert_request
  insert_request-IsDisjoint H l h m v d = ground (
    arith,
    v d,
    get-remove d (unique_digest H h) l.deciding,
    R.get-insert d (unique_digest H h) (record { header = h; message = m }) l.requests,
  )

  find_request-next_batch_same :
      (l : Log S O R) (d : Digest)
      → IsDisjoint l
      → find_request (next_batch l).1 d ≡ find_request l d
  unfolding find_request next_batch
  find_request-next_batch_same l d v = elim (Option-cases (R.pop_front l.requests)) [
    | inl e ↦ rw (e, next_batch)
    | inr ((k, stored, rest), e) ↦
        rw (e, next_batch)
          (ground (
            arith,
            v k,
            v d,
            R.get-pop_front l.requests k stored rest e,
            (R.get-pop_front l.requests k stored rest e).1 d,
            get-insert d k stored l.deciding,
          ))
  ]

  pub next_batch-IsDisjoint : (l : Log S O R) → IsDisjoint l → IsDisjoint (next_batch l).1
  unfolding next_batch
  next_batch-IsDisjoint l v d = elim (Option-cases (R.pop_front l.requests)) [
    | inl e ↦ rw (e, next_batch) (v d)
    | inr ((k, stored, rest), e) ↦
        rw (e, next_batch)
          (ground (
            arith,
            v d,
            (R.get-pop_front l.requests k stored rest e).1 d,
            get-insert d k stored l.deciding,
          ))
  ]

  pub has_request-find : (l : Log S O R) (d : Digest) → has_request l d ≡ is_some (find_request l d)
  unfolding has_request find_request contains_key
  has_request-find l d = ground arith

  -- A proposal has exactly the batch size, and every request that it names is known.
  pub next_batch-proposes :
      (l : Log S O R) (ds : List Digest)
      → (next_batch l).0 ≡ some ds
      → (length ds ≡ l.batch_size) × All (λ d. has_request (next_batch l).1 d ≡ true) ds
  unfolding next_batch has_request
  next_batch-proposes l ds e = elim (Option-cases (R.pop_front l.requests)) [
    | inl f ↦ absurd (ground arith)
    | inr ((k, stored, rest), f) ↦
        let m : HashMap (StoredRequest O) = insert k stored l.deciding in
        let full : (leb l.batch_size (length m) ≡ true) × (take l.batch_size (keys m) ≡ ds) =
          ground arith in
        (
          omega (
            arith,
            ap length full.1,
            length-take l.batch_size (keys m),
            length-keys m,
            leb→le l.batch_size (length m) full.0,
          ),
          rw (f, next_batch)
              (subst (All (λ d. (contains_key d m || is_some (R.get d rest)) ≡ true)) full.1 (
                All-take _ l.batch_size (keys m)
                  (All-map (keys m) (λ d h. rw h) (keys-contains_key m)))),
        )
  ]

  -- What `next_batch` has done: nothing, without a pending request; else the first pending request is
  -- one that is being decided, and a batch is proposed exactly if enough of these are there.
  abbrev pub Took : Log S O R → Option (List Digest) × Log S O R → Type 0
  Took l (proposed, l') =
      (R.pop_front l.requests ≡ none) × (proposed ≡ none) × (l' ≡ l)
      ⊎ (k : Digest) × (stored : StoredRequest O) × (R.pop_front l.requests
          ≡ some (k, stored, l'.requests))
        × (l' ≡ record l { requests = l'.requests; deciding = insert k stored l.deciding })
        × (get k l'.deciding ≡ some stored)
        × (R.get k l'.requests ≡ none)
        × (is_some proposed ≡ leb l.batch_size (length l'.deciding))

  next_batch-Took : (l : Log S O R) → Took l (next_batch l)
  unfolding next_batch
  next_batch-Took l = elim (Option-cases (R.pop_front l.requests)) [
    | inl e ↦ rw (e, next_batch) (inl (refl, refl, refl))
    | inr ((k, stored, rest), e) ↦
        let m : HashMap (StoredRequest O) = insert k stored l.deciding in
        let now : get k m ≡ some stored = ground (arith, get-insert k k stored l.deciding) in
        let gone : R.get k rest ≡ none =
          ground (arith, (R.get-pop_front l.requests k stored rest e).1 k) in
        let proposes : is_some
              (if leb l.batch_size (length m) then some (take l.batch_size (keys m)) else none)
            ≡ leb l.batch_size (length m) =
          ground arith in
        rw (e, next_batch) (inr (k, stored, refl, refl, now, gone, proposes))
  ]

  -- Taking the next batch when no request is both pending and being decided. Without a pending
  -- request nothing changes; else the first pending request moves to those being decided, and a batch
  -- is proposed exactly if as many as the batch size are being decided. A proposal has exactly the
  -- batch size and names known requests only, and under every digest the same request is found as
  -- before.
  pub find_request-next_batch :
      (l : Log S O R)
      → IsDisjoint l
      → Took l (next_batch l)
        × ((ds : List Digest)
            → (next_batch l).0 ≡ some ds
            → (length ds ≡ l.batch_size) × All (λ d. has_request (next_batch l).1 d ≡ true) ds)
        × ((d : Digest) → find_request (next_batch l).1 d ≡ find_request l d)
  find_request-next_batch l v =
      (next_batch-Took l, next_batch-proposes l, λ d. find_request-next_batch_same l d v)

  -- A request that is taken is no longer known; the others are.
  pub find_request-take_request :
      (l : Log S O R) (k d : Digest)
      → IsDisjoint l
      → find_request (take_request l k) d ≡ (if k == d then none else find_request l d)
  unfolding find_request take_request contains_key
  find_request-take_request l k d v =
      ground (arith, v k, get-remove d k l.deciding, R.get-remove d k l.requests)

  pub take_request-IsDisjoint :
      (l : Log S O R) (k : Digest) → IsDisjoint l → IsDisjoint (take_request l k)
  unfolding take_request
  take_request-IsDisjoint l k v d =
      ground (arith, v d, get-remove d k l.deciding, R.get-remove d k l.requests)
