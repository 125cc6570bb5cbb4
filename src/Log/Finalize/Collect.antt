-- ===== src/Log/Finalize/Collect.antt =====
-- The requests of a decided batch are taken out of the log (bft/consensus/log/mod.rs).
use mathlib.Core.List.{append-nil, append_assoc}
use bafomet.Base.{
  ℕ, Bool, true, false, not, ◌&&◌, ◌||◌, ◌==◌, inl, inr, some, is_some, Option-cases, Result, ok,
  err, panic, List, [], ◌∷◌, ◌++◌, map, All, All-map, ◌≡◌, refl, ap, ◌∙◌, arith,
}
use bafomet.Collections.{OrderedMap}
use bafomet.Message.{Digest}
use bafomet.Executable.{Update, UpdateBatch, add_update}
use bafomet.Log.Store.{StoredRequest, Log, find_request, take_request}
use bafomet.Log.Store.Requests.{IsDisjoint, find_request-take_request, take_request-IsDisjoint}
use bafomet.Log.Finalize.{collect_batch}

abbrev pub elem : ℕ → List ℕ → Bool
elem d [] = false
elem d (e ∷ ds) = e == d || elem d ds

abbrev pub is_ok {ℓ} : {A : Type ℓ} → Result A → Bool
is_ok (ok a) = true
is_ok (err e) = false
is_ok panic = false

module _ {S O : Type 0} {R : OrderedMap (StoredRequest O)} where
  -- Every digest names a request of the log, and none stands twice.
  abbrev pub available : Log S O R → List Digest → Bool
  available l [] = true
  available l (d ∷ ds) = is_some (find_request l d) && not (elem d ds) && available l ds

  available-take_request :
      (l : Log S O R) (k : Digest) (ds : List Digest)
      → IsDisjoint l
      → available (take_request l k) ds ≡ (not (elem k ds) && available l ds)
  available-take_request l k [] v = refl
  available-take_request l k (d ∷ ds) v =
      ground (arith, find_request-take_request l k d v, available-take_request l k ds v)

  pub collect_batch-available :
      (l : Log S O R) (batch : UpdateBatch O) (ds : List Digest)
      → IsDisjoint l
      → is_ok (collect_batch l batch ds).0 ≡ available l ds
  unfolding collect_batch
  collect_batch-available l batch [] v = refl
  collect_batch-available l batch (d ∷ ds) v = elim (Option-cases (find_request l d)) [
    | inl e ↦ rw (e, collect_batch)
    | inr (s, e) ↦
        rw (e, collect_batch)
          (collect_batch-available (take_request l d)
              (add_update batch s.header.from d s.message.operation) ds
              (take_request-IsDisjoint l d v)
            ∙ available-take_request l d ds v)
  ]

  -- The update was made from the request that the log has for its digest.
  abbrev pub IsFrom : Log S O R → Update O → Type 0
  IsFrom l u =
      (s : StoredRequest O) × (find_request l u.digest ≡ some s)
      × (u.from ≡ s.header.from)
      × (u.operation ≡ s.message.operation)

  IsFrom-take_request :
      (l : Log S O R) (k : Digest) (u : Update O)
      → IsDisjoint l
      → IsFrom (take_request l k) u
      → IsFrom l u
  IsFrom-take_request l k u v (s, e, f, g) =
      (s, ground (arith, find_request-take_request l k u.digest v), f, g)

  -- The updates that a run of the loop appends.
  pub collect_batch-updates :
      (l : Log S O R) (batch : UpdateBatch O) (ds : List Digest) (b : UpdateBatch O)
      → IsDisjoint l
      → (collect_batch l batch ds).0 ≡ ok b
      → (us : UpdateBatch O) × (b ≡ batch ++ us) × (map (λ u. u.digest) us ≡ ds) × All (IsFrom l) us
  unfolding collect_batch
  collect_batch-updates l batch [] b v e = ([], ground (arith, append-nil batch), refl, tt)
  collect_batch-updates l batch (d ∷ ds) b v e = elim (Option-cases (find_request l d)) [
    | inl f ↦ absurd (cc (rw (f, collect_batch) at e))
    | inr (s, f) ↦
        let u : Update O = record {
          from = s.header.from;
          digest = d;
          operation = s.message.operation;
        } in
        let (us, h, k, m) =
          collect_batch-updates (take_request l d) (batch ++ u ∷ []) ds b
            (take_request-IsDisjoint l d v) (rw (f, collect_batch) at e) in
        (
          u ∷ us,
          h ∙ append_assoc batch (u ∷ []) us,
          ap (◌∷◌ d) k,
          ((s, f, refl, refl), All-map us (λ w. IsFrom-take_request l d w v) m),
        )
  ]

  -- What `take_request` leaves alone.
  abbrev pub SameRest : Log S O R → Log S O R → Type 0
  SameRest l l' =
      (l'.curr_seq ≡ l.curr_seq)
      × (l'.batch_size ≡ l.batch_size)
      × (l'.declog ≡ l.declog)
      × (l'.decided ≡ l.decided)
      × (l'.checkpoint ≡ l.checkpoint)

  pub collect_batch-frame :
      (l : Log S O R) (batch : UpdateBatch O) (ds : List Digest)
      → IsDisjoint l
      → SameRest l (collect_batch l batch ds).1 × IsDisjoint (collect_batch l batch ds).1
  unfolding collect_batch take_request
  collect_batch-frame l batch [] v = ((refl, refl, refl, refl, refl), v)
  collect_batch-frame l batch (d ∷ ds) v = elim (Option-cases (find_request l d)) [
    | inl f ↦ rw (f, collect_batch) (ground arith, take_request-IsDisjoint l d v)
    | inr (s, f) ↦
        let ih =
          collect_batch-frame (take_request l d)
            (add_update batch s.header.from d s.message.operation) ds
            (take_request-IsDisjoint l d v) in
        rw (f, collect_batch) (ground (arith, ih.0), ih.1)
  ]
