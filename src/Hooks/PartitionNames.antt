-- ===== src/Hooks/PartitionNames.antt =====
-- studio/src/hooks/usePartitionMetadata.ts: the names that are inferred from samples. Each run of
-- the effect is a load of its own, which samples its partitions in batches of eight; a new run, or
-- the end of the component, cancels the last one. The partitions of the counts are in ascending
-- order, as the integer keys of an object.
pub mod Cancelled
pub mod Current
use mathlib.Core.Option
use beast_db.Prelude.{
  ℕ, zero, suc, ◌+◌, Bool, true, false, ◌&&◌, Option, none, some, List, [], ◌∷◌, ◌++◌, map, or_else,
  keep, take, drop, ltb, leb, take_out, if◌then◌else◌,
}
use beast_db.Js.Text.{Text, units}
use beast_db.Js.Case.{CaseMap}
use beast_db.Js.Platform.{Platform}
use beast_db.Js.BigInt.{to_decimal}
use beast_db.Keys.Registry.{Registry, Registries, put, set_inferred_partition_registry}
use beast_db.Schema.Infer.{infer_partition_meta}
use beast_db.Hooks.Api.{Result, failed, done, Reply, api}
use beast_db.Hooks.Ranges.{start_key, end_key}
use beast_db.Hooks.Data.{Page}
use beast_db.Hooks.Data.Events.{parse_page}

-- One run: is it cancelled, what has it inferred, which samples are under way, and which partitions
-- are still to be sampled?
pub record Load : Type 0 where
  pub aborted : Bool
  pub inferred : Registry
  pub waiting : List ℕ
  pub later : List ℕ

-- The loads, the last one first.
pub record Session : Type 0 where
  pub registries : Registries
  pub revision : ℕ
  pub loads : List Load

unfoldable pub sampled_prefixes : Option (List (ℕ × ℕ)) → List ℕ
sampled_prefixes counts =
    keep (λ p. leb p 255) (map (λ e. e.0) (keep (λ e. ltb 0 e.1) (or_else counts [])))

unfoldable pub sample_url : ℕ → Text
unfolding start_key end_key to_decimal
sample_url p =
    units "/api/records?start="
    ++ to_decimal (start_key p)
    ++ units "&end="
    ++ to_decimal (end_key p)
    ++ units "&limit=24"

next_batch : Load → Load
next_batch l = record l { waiting = take 8 l.later; later = drop 8 l.later }

abort : List Load → List Load
abort [] = []
abort (l ∷ ls) = record l { aborted = true } ∷ ls

publish : Registry → Session → Session
publish r s = record s {
  registries = set_inferred_partition_registry r s.registries;
  revision = s.revision + 1;
}

-- The effect, when the counts have changed, and its end.
unfoldable pub change : Option (List (ℕ × ℕ)) → Session → Session
unfolding sampled_prefixes next_batch abort publish
change counts s =
    let fresh : Load = record {
      aborted = false;
      inferred = [];
      waiting = [];
      later = sampled_prefixes counts;
    } in
    publish [] (record s { loads = next_batch fresh ∷ abort s.loads })

unfoldable pub leave : Session → Session
unfolding abort
leave s = record s { loads = abort s.loads }

-- After the last sample of a batch what is inferred is to be published, and the next batch begins.
close_batch : Load → Load × Option Registry
unfolding next_batch
close_batch l = elim l.waiting [ [] ↦ (next_batch l, some l.inferred) | p ∷ ps ↦ (l, none) ]

publish_some : Option Registry → Session → Session
unfolding publish
publish_some none s = s
publish_some (some r) s = publish r s

module _ ⦃c : CaseMap⦄ (js : Platform) where
  -- A sample that fails leaves the name as it is.
  add_sample : Registries → ℕ → Result (Option Page) → Registry → Registry
  add_sample r p (failed m) inferred = inferred
  add_sample r p (done none) inferred = inferred
  add_sample r p (done (some page)) inferred =
      put p (infer_partition_meta (parse_page js r page) p) inferred

  -- A load goes on with the answer to one of its samples; once cancelled it keeps nothing of it.
  settle : Registries → Option (ℕ × List ℕ) → Reply Page → Load → Load × Option Registry
  unfolding add_sample close_batch
  settle rs none r l = (l, none)
  settle rs (some (p, ps)) r l =
      if l.aborted
      then (record l { waiting = ps }, none)
      else close_batch
          (record l { waiting = ps; inferred = add_sample rs p (api (sample_url p) r) l.inferred })

  pub settle_at : ℕ → ℕ → Reply Page → Registries → List Load → List Load × Option Registry
  unfolding settle take_out
  settle_at j i r rs [] = ([], none)
  settle_at zero i r rs (l ∷ ls) =
      let after = settle rs (take_out l.waiting i) r l in (after.0 ∷ ls, after.1)
  settle_at (suc j) i r rs (l ∷ ls) = let after = settle_at j i r rs ls in (l ∷ after.0, after.1)

  -- The answer to the sample at position i of the load at position j.
  unfoldable pub arrive : ℕ → ℕ → Reply Page → Session → Session
  unfolding settle_at publish_some
  arrive j i r s =
      let after = settle_at j i r s.registries s.loads in
      publish_some after.1 (record s { loads = after.0 })

pub data Event : Type 0 where
  counted : Option (List (ℕ × ℕ)) → Event
  left : Event
  answered : ℕ → ℕ → Reply Page → Event

module _ ⦃c : CaseMap⦄ (js : Platform) where
  unfoldable pub handle : Event → Session → Session
  unfolding change leave arrive
  handle (counted counts) s = change counts s
  handle left s = leave s
  handle (answered j i r) s = arrive js j i r s

  unfoldable pub run : List Event → Session → Session
  unfolding handle
  run [] s = s
  run (e ∷ es) s = run es (handle e s)
