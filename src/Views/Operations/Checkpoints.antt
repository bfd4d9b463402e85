-- ===== src/Views/Operations/Checkpoints.antt =====
-- The notices of the checkpoints.
use beast_db.Prelude.{
  ℕ, zero, suc, ◌≡◌, refl, Bool, true, false, not, ◌&&◌, ◌||◌, Option, List, [], ◌∷◌, All,
  All-append, Bool-cases, inl, inr,
}
use beast_db.Js.Text.{Text, units, same, ends_with}
use beast_db.Views.Operations.{
  Control, checkpoint_notice, finish_checkpoint, is_done, settled, handle_checkpoint, handle_export,
  Event, click_checkpoint, click_export, settle, handle, run,
}

-- No error, and the text says that pages are on disk, or is that of an export.
abbrev pub is_quiet : Text × Bool → Bool
is_quiet (m, error) =
    not error && (ends_with m (units "synced to disk.") || same m (units "Export initiated."))

checkpoint_notice-is_quiet : (reply : Option ℕ) → is_quiet (checkpoint_notice reply, false) ≡ true
unfolding checkpoint_notice ends_with
checkpoint_notice-is_quiet reply = elim (Bool-cases (is_done reply)) [
  | inl e ↦ rw (e, checkpoint_notice) refl
  | inr e ↦ rw (e, checkpoint_notice) refl
]

abbrev AreQuiet : Control → Type 0
AreQuiet s = All (λ n. is_quiet n ≡ true) s.notices

settled-AreQuiet :
    (n : ℕ) (reply : Option ℕ) (s : Control) → AreQuiet s → AreQuiet (settled n reply s)
unfolding settled finish_checkpoint
settled-AreQuiet zero reply s h = h
settled-AreQuiet (suc n) reply s h =
    All-append _ s.notices _ h (checkpoint_notice-is_quiet reply, tt)

handle-AreQuiet : (e : Event) (s : Control) → AreQuiet s → AreQuiet (handle e s)
unfolding handle handle_checkpoint handle_export ends_with
handle-AreQuiet click_checkpoint s h = h
handle-AreQuiet click_export s h = All-append _ s.notices _ h (refl, tt)
handle-AreQuiet (settle reply) s h = settled-AreQuiet s.pending reply s h

-- Whatever the checkpoints come to, a fetch that rejects and a refusal by the server included, no
-- notice of the view is an error, and each says that pages are synced to disk, or is that of an
-- export, if that held before.
pub run-AreQuiet :
    (es : List Event) (s : Control)
    → All (λ n. is_quiet n ≡ true) s.notices
    → All (λ n. is_quiet n ≡ true) (run es s).notices
unfolding run
run-AreQuiet [] s h = h
run-AreQuiet (e ∷ es) s h = run-AreQuiet es (handle e s) (handle-AreQuiet e s h)
