-- ===== src/Display/Preview.antt =====
-- display.ts: recordPreview.
use beast_db.Prelude.{◌≢◌, [], ◌∷◌, ◌++◌}
use beast_db.Js.Text.{Text, units}
use beast_db.Js.Case.{CaseMap}
use beast_db.Types.{json_object, json_array, token, string, binary, empty, UniversalRecord}
use beast_db.Display.{plain_preview, or_text, record_preview}

or_text-nonempty : (a b : Text) → b ≢ [] → or_text a b ≢ []
or_text-nonempty [] b h = h
or_text-nonempty (u ∷ s) b h = λ e. cc

append-nonempty : (a b : Text) → b ≢ [] → (a ++ b) ≢ []
append-nonempty [] b h = h
append-nonempty (u ∷ s) b h = λ e. cc

plain_preview-nonempty : (r : UniversalRecord) → plain_preview r ≢ []
unfolding plain_preview
plain_preview-nonempty r = elim r.format as (λ f. plain_preview (record r { format = f }) ≢ []) [
  | json_array ↦ append-nonempty _ (units " items") (λ e. cc)
  | json_object ↦ λ e. cc
  | token ↦ λ e. cc
  | string ↦ λ e. cc
  | binary ↦ λ e. cc
  | empty ↦ λ e. cc
]

-- The preview line of a record is never empty.
pub record_preview-nonempty : ⦃c : CaseMap⦄ (r : UniversalRecord) → record_preview r ≢ []
unfolding record_preview
record_preview-nonempty r =
    or_text-nonempty r.secondary_label _ (or_text-nonempty _ _ (plain_preview-nonempty r))
