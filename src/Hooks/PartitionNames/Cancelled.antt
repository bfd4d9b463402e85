-- ===== src/Hooks/PartitionNames/Cancelled.antt =====
-- usePartitionMetadata.ts: the loads that a new run of the effect, or its end, has cancelled.
use beast_db.Prelude.{
  ℕ, zero, suc, ◌≡◌, refl, true, Option, none, some, List, [], ◌∷◌, All, take_out,
}
use beast_db.Js.Case.{CaseMap}
use beast_db.Js.Platform.{Platform}
use beast_db.Keys.Registry.{Registry, Registries}
use beast_db.Hooks.Api.{Reply}
use beast_db.Hooks.Data.{Page}
use beast_db.Hooks.PartitionNames.{
  Load, Session, abort, publish, publish_some, change, leave, settle, settle_at, arrive, Event,
  counted, left, answered, handle, run,
}

-- All loads but the last one are cancelled.
abbrev pub AreCancelled : List Load → Type 0
AreCancelled [] = Unit
AreCancelled (l ∷ ls) = All (λ x. x.aborted ≡ true) ls

all_cancelled : (ls : List Load) → AreCancelled ls → All (λ x. x.aborted ≡ true) (abort ls)
unfolding abort
all_cancelled [] h = tt
all_cancelled (l ∷ ls) h = (refl, h)

AreCancelled-abort : (ls : List Load) → AreCancelled ls → AreCancelled (abort ls)
unfolding abort
AreCancelled-abort [] h = tt
AreCancelled-abort (l ∷ ls) h = h

loads-publish_some : (o : Option Registry) (s : Session) → (publish_some o s).loads ≡ s.loads
unfolding publish_some publish
loads-publish_some none s = refl
loads-publish_some (some r) s = refl

module _ ⦃c : CaseMap⦄ (js : Platform) where
  settle-cancelled :
      (rs : Registries) (o : Option (ℕ × List ℕ)) (r : Reply Page) (l : Load)
      → l.aborted ≡ true
      → ((settle js rs o r l).1 ≡ none) × ((settle js rs o r l).0.aborted ≡ true)
  unfolding settle
  settle-cancelled rs none r l h = (refl, h)
  settle-cancelled rs (some (p, ps)) r l h = rw h (refl, refl)

  pub settle_at-cancelled :
      (j i : ℕ) (r : Reply Page) (rs : Registries) (ls : List Load)
      → All (λ x. x.aborted ≡ true) ls
      → ((settle_at js j i r rs ls).1 ≡ none)
        × All (λ x. x.aborted ≡ true) (settle_at js j i r rs ls).0
  unfolding settle_at
  settle_at-cancelled j i r rs [] h = (refl, tt)
  settle_at-cancelled zero i r rs (l ∷ ls) (a, h) =
      let (nothing_shown, still) = settle-cancelled rs (take_out l.waiting i) r l a in
      (nothing_shown, (still, h))
  settle_at-cancelled (suc j) i r rs (l ∷ ls) (a, h) =
      let (nothing_shown, still) = settle_at-cancelled j i r rs ls h in (nothing_shown, (a, still))

  AreCancelled-settle_at :
      (j i : ℕ) (r : Reply Page) (rs : Registries) (ls : List Load)
      → AreCancelled ls
      → AreCancelled (settle_at js j i r rs ls).0
  unfolding settle_at
  AreCancelled-settle_at j i r rs [] h = tt
  AreCancelled-settle_at zero i r rs (l ∷ ls) h = h
  AreCancelled-settle_at (suc j) i r rs (l ∷ ls) h = (settle_at-cancelled j i r rs ls h).1

  pub AreCancelled-handle :
      (e : Event) (s : Session) → AreCancelled s.loads → AreCancelled (handle js e s).loads
  unfolding handle change leave arrive publish
  AreCancelled-handle (counted counts) s h = all_cancelled s.loads h
  AreCancelled-handle left s h = AreCancelled-abort s.loads h
  AreCancelled-handle (answered j i r) s h =
      rw loads-publish_some (AreCancelled-settle_at j i r s.registries s.loads h)

  pub AreCancelled-run :
      (es : List Event) (s : Session) → AreCancelled s.loads → AreCancelled (run js es s).loads
  unfolding run
  AreCancelled-run [] s h = h
  AreCancelled-run (e ∷ es) s h = AreCancelled-run es (handle js e s) (AreCancelled-handle e s h)
