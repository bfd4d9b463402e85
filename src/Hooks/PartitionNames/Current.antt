-- ===== src/Hooks/PartitionNames/Current.antt =====
-- usePartitionMetadata.ts: the partitions that have an inferred name.
use beast_db.Prelude.{
  ℕ, zero, suc, ◌≡◌, true, Option, none, some, List, [], ◌∷◌, All, any, take, drop, take_out,
  take_out-All, ltb, ◌==◌, Bool-cases, Option-cases, inl, inr, arith,
}
use beast_db.Js.Case.{CaseMap}
use beast_db.Js.Platform.{Platform}
use beast_db.Types.{PartitionMeta}
use beast_db.Keys.Registry.{Registry, Registries, put, set_inferred_partition_registry}
use beast_db.Hooks.Api.{Result, failed, done, Reply, api}
use beast_db.Hooks.Data.{Page}
use beast_db.Hooks.PartitionNames.{
  Load, Session, sampled_prefixes, sample_url, publish_some, change, leave, close_batch, add_sample,
  settle, settle_at, arrive, Event, counted, left, answered, handle, run,
}
use beast_db.Hooks.PartitionNames.Cancelled.{
  AreCancelled, settle_at-cancelled, AreCancelled-handle, AreCancelled-run,
}

abbrev pub IsCounted : Event → Type 0
IsCounted (counted counts) = Unit
IsCounted _ = ⊥

module _ (P : ℕ → Type 0) where
  put-All :
      (p : ℕ) (meta : PartitionMeta) (r : Registry)
      → P p
      → All (λ e. P e.0) r
      → All (λ e. P e.0) (put p meta r)
  unfolding put
  put-All p meta [] a h = (a, tt)
  put-All p meta ((q, m) ∷ r) a (b, h) = elim (Bool-cases (q == p)) [
    | inl e ↦ rw (e, put) (a, h)
    | inr e ↦ elim (Bool-cases (ltb p q)) [
      | inl f ↦ rw (e, f, put) (a, (b, h))
      | inr f ↦ rw (e, f, put) (b, put-All p meta r a h)
    ]
  ]

  take-All : (n : ℕ) (xs : List ℕ) → All P xs → All P (take n xs)
  take-All zero xs h = tt
  take-All (suc n) [] h = tt
  take-All (suc n) (x ∷ xs) (p, h) = (p, take-All n xs h)

  drop-All : (n : ℕ) (xs : List ℕ) → All P xs → All P (drop n xs)
  drop-All zero xs h = h
  drop-All (suc n) [] h = tt
  drop-All (suc n) (x ∷ xs) (p, h) = drop-All n xs h

  -- Only partitions of P are sampled, and only they have a name.
  record IsWithin (l : Load) : Type 0 where
    named : All (λ e. P e.0) l.inferred
    under_way : All P l.waiting
    to_come : All P l.later

  abbrev Head : List Load → Type 0
  Head [] = Unit
  Head (l ∷ ls) = IsWithin l

  record Holds (s : Session) : Type 0 where
    shown : All (λ e. P e.0) s.registries.inferred_registry
    last : Head s.loads

  abbrev Names : Option Registry → Type 0
  Names none = Unit
  Names (some r) = All (λ e. P e.0) r

  Holds-leave : (s : Session) → Holds s → Holds (leave s)
  unfolding leave
  Holds-leave s h =
      elim s.loads as (λ ls. Head ls → Holds (leave (record s { loads = ls }))) [
        | [] ↦ λ k. record { shown = h.shown; last = tt }
        | l ∷ ls ↦ λ k. record {
          shown = h.shown;
          last = record { named = k.named; under_way = k.under_way; to_come = k.to_come };
        }
      ]
        h.last

  close_batch-IsWithin :
      (l : Load) → IsWithin l → IsWithin (close_batch l).0 × Names (close_batch l).1
  unfolding close_batch
  close_batch-IsWithin l k =
      elim l.waiting
          as (λ w.
            All P w
            → IsWithin (close_batch (record l { waiting = w })).0
              × Names (close_batch (record l { waiting = w })).1) [
                | [] ↦ λ a. (
                  record {
                    named = k.named;
                    under_way = take-All 8 l.later k.to_come;
                    to_come = drop-All 8 l.later k.to_come;
                  },
                  k.named,
                )
                | p ∷ ps ↦ λ a. (record { named = k.named; under_way = a; to_come = k.to_come }, tt)
              ]
        k.under_way

  add_sample-All :
      ⦃c : CaseMap⦄ (js : Platform) (r : Registries) (p : ℕ) (page : Result (Option Page))
      (inferred : Registry)
      → P p
      → All (λ e. P e.0) inferred
      → All (λ e. P e.0) (add_sample js r p page inferred)
  unfolding add_sample
  add_sample-All js r p (failed m) inferred a h = h
  add_sample-All js r p (done none) inferred a h = h
  add_sample-All js r p (done (some page)) inferred a h = put-All p _ inferred a h

  module _ ⦃c : CaseMap⦄ (js : Platform) where
    settle-IsWithin :
        (l : Load) (i : ℕ) (r : Reply Page) (rs : Registries)
        → IsWithin l
        → IsWithin (settle js rs (take_out l.waiting i) r l).0
          × Names (settle js rs (take_out l.waiting i) r l).1
    unfolding settle
    settle-IsWithin l i r rs k = elim (Option-cases (take_out l.waiting i)) [
      | inl e ↦ rw (e, settle) (k, tt)
      | inr ((p, ps), e) ↦
          let (a, left_over) = take_out-All P l.waiting i p ps e k.under_way in
          elim (Bool-cases l.aborted) [
            | inl f ↦
                rw (e, f, settle)
                  (record { named = k.named; under_way = left_over; to_come = k.to_come }, tt)
            | inr f ↦
                rw (e, f, settle)
                  (close_batch-IsWithin _ (record {
                    named = add_sample-All js rs p (api (sample_url p) r) l.inferred a k.named;
                    under_way = left_over;
                    to_come = k.to_come;
                  }))
          ]
    ]

    settle_at-Head :
        (j i : ℕ) (r : Reply Page) (rs : Registries) (ls : List Load)
        → Head ls
        → AreCancelled ls
        → Head (settle_at js j i r rs ls).0 × Names (settle_at js j i r rs ls).1
    unfolding settle_at
    settle_at-Head j i r rs [] h w = (tt, tt)
    settle_at-Head zero i r rs (l ∷ ls) h w = settle-IsWithin l i r rs h
    settle_at-Head (suc j) i r rs (l ∷ ls) h w =
        (h, rw ((settle_at-cancelled js j i r rs ls w).0) tt)

    Holds-publish_some :
        (o : Option Registry) (s : Session) → Names o → Holds s → Holds (publish_some o s)
    unfolding publish_some set_inferred_partition_registry
    Holds-publish_some none s a h = h
    Holds-publish_some (some r) s a h = record { shown = a; last = h.last }

    Holds-arrive :
        (j i : ℕ) (r : Reply Page) (s : Session)
        → AreCancelled s.loads
        → Holds s
        → Holds (arrive js j i r s)
    unfolding arrive
    Holds-arrive j i r s w h =
        let (head, names) = settle_at-Head j i r s.registries s.loads h.last w in
        Holds-publish_some _ _ names (record { shown = h.shown; last = head })

    Holds-run :
        (es : List Event) (s : Session)
        → All (λ e. ¬ IsCounted e) es
        → AreCancelled s.loads
        → Holds s
        → Holds (run js es s)
    unfolding run handle
    Holds-run [] s w a h = h
    Holds-run (counted counts ∷ es) s (w, ws) a h = absurd (w tt)
    Holds-run (left ∷ es) s (w, ws) a h =
        Holds-run es (leave s) ws (AreCancelled-handle js left s a) (Holds-leave s h)
    Holds-run (answered j i r ∷ es) s (w, ws) a h =
        Holds-run es (arrive js j i r s) ws (AreCancelled-handle js (answered j i r) s a)
          (Holds-arrive j i r s a h)

abbrev pub IsSampled : Option (List (ℕ × ℕ)) → ℕ → Type 0
IsSampled counts p = any (λ q. q == p) (sampled_prefixes counts) ≡ true

any-weaken :
    (x : ℕ) (xs ys : List ℕ)
    → All (λ p. any (λ q. q == p) xs ≡ true) ys
    → All (λ p. any (λ q. q == p) (x ∷ xs) ≡ true) ys
any-weaken x xs [] h = tt
any-weaken x xs (y ∷ ys) (a, h) = (ground (arith, a), any-weaken x xs ys h)

All-any : (xs : List ℕ) → All (λ p. any (λ q. q == p) xs ≡ true) xs
All-any [] = tt
All-any (x ∷ xs) = (ground arith, any-weaken x xs xs (All-any xs))

-- From a page with no load under way, after any events, to a change of the counts and on to the next
-- one: whatever answers arrive for the load of these counts and for all the loads before it, and in
-- whatever order, an inferred name belongs to a partition of these counts.
pub inferred_registry-IsSampled :
    ⦃c : CaseMap⦄ (js : Platform) (counts : Option (List (ℕ × ℕ))) (earlier es : List Event)
    (s : Session)
    → s.loads ≡ []
    → All (λ e. ¬ IsCounted e) es
    → All
        (λ e. IsSampled counts e.0)
        (run js es (change counts (run js earlier s))).registries.inferred_registry
unfolding change set_inferred_partition_registry handle
inferred_registry-IsSampled js counts earlier es s none_yet w =
    let before = run js earlier s in
    let cancelled = AreCancelled-run js earlier s (rw none_yet tt) in
    let all_of = All-any (sampled_prefixes counts) in
    (Holds-run (IsSampled counts) js es (change counts before) w
      (AreCancelled-handle js (counted counts) before cancelled)
      (record {
        shown = tt;
        last = record {
          named = tt;
          under_way = take-All (IsSampled counts) 8 _ all_of;
          to_come = drop-All (IsSampled counts) 8 _ all_of;
        };
      })).shown
