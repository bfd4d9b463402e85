-- ===== src/Views/Toolbar/Filters.antt =====
-- The filter by status: what the bar counts, and what the explorer shows for a choice.
use beast_db.Prelude.{
  ℕ, ◌+◌, ◌<◌, ◌↔◌, any, ◌≡◌, ◌≢◌, refl, ◌∙◌, Bool, true, false, ◌&&◌, Option, none, some, List, [],
  ◌∷◌, All, all, keep, count, length, arith, if◌then◌else◌, ◌==◌, Bool-cases, inl, inr,
}
use beast_db.Prelude.Sort.{descending, IsSorted, sort-descending, any-sort, Apart}
use beast_db.Js.Text.{Text, units, same, same_iff, trim}
use beast_db.Js.Case.{CaseMap, to_lower}
use beast_db.Js.Json.{Json, to_text, null, bool, num, str, arr, obj}
use beast_db.Types.{UniversalRecord}
use beast_db.Explorer.{View, active_records, filtered_records, status_text}
use beast_db.Views.Toolbar.{bump, normal, add_status, count_statuses, status_counts}

value : Text → List (Text × ℕ) → ℕ
value s [] = 0
value s ((t, n) ∷ m) = if same t s then n else value s m

value-bump :
    (s t : Text) (m : List (Text × ℕ))
    → value s (bump t m) ≡ value s m + (if same t s then 1 else 0)
unfolding value bump
value-bump s t [] = ground arith
value-bump s t ((u, n) ∷ m) =
    ground (arith, value-bump s t m, same_iff u t, same_iff u s, same_iff t s)

-- Each key once.
abbrev IsDistinct : List (Text × ℕ) → Type 0
IsDistinct = Apart (λ a b. true) (λ a b. same a.0 b.0 ≡ false)

bump-All :
    (k t : Text) (m : List (Text × ℕ))
    → same k t ≡ false
    → All (λ e. same k e.0 ≡ false) m
    → All (λ e. same k e.0 ≡ false) (bump t m)
unfolding bump
bump-All k t [] h tt = (h, tt)
bump-All k t ((u, n) ∷ m) h (q, r) = ground (arith, bump-All k t m h r)

bump-IsDistinct : (t : Text) (m : List (Text × ℕ)) → IsDistinct m → IsDistinct (bump t m)
unfolding bump
bump-IsDistinct t [] h = (tt, tt)
bump-IsDistinct t ((u, n) ∷ m) (q, r) = elim (Bool-cases (same u t)) [
  | inl e ↦ rw e (q, r)
  | inr e ↦ rw e (bump-All u t m e q, bump-IsDistinct t m r)
]

abbrev ArePositive : List (Text × ℕ) → Type 0
ArePositive = All (λ e. 0 < e.1)

bump-ArePositive : (t : Text) (m : List (Text × ℕ)) → ArePositive m → ArePositive (bump t m)
unfolding bump
bump-ArePositive t [] h = (omega arith, tt)
bump-ArePositive t ((u, n) ∷ m) (q, r) = elim (Bool-cases (same u t)) [
  | inl e ↦ rw e (omega arith, r)
  | inr e ↦ rw e (q, bump-ArePositive t m r)
]

-- Is there a pill for the status `s` with the number `n`?
abbrev pub has_pill : Text → ℕ → List (Text × ℕ) → Bool
has_pill s n m = any (λ e. same e.0 s && (e.1 == n)) m

no-pill :
    (s : Text) (n : ℕ) (m : List (Text × ℕ))
    → All (λ e. same s e.0 ≡ false) m
    → has_pill s n m ≡ false
no-pill s n [] h = refl
no-pill s n ((u, k) ∷ m) (q, r) = ground (arith, no-pill s n m r, same_iff s u, same_iff u s)

pill_iff :
    (s : Text) (n : ℕ) (m : List (Text × ℕ))
    → IsDistinct m
    → ArePositive m
    → (has_pill s n m ≡ true) ↔ ((0 < n) × (value s m ≡ n))
unfolding value
pill_iff s n [] d h = ((λ e. cc), (λ k. absurd (omega arith)))
pill_iff s n ((u, k) ∷ m) (q, d) (h, hs) = elim (Bool-cases (same u s)) [
  | inl e ↦
      let same_key : u ≡ s = (same_iff u s).0 e in
      let none_left = no-pill s n m (rw (← same_key) q) in rw (e, none_left) (ground arith)
  | inr e ↦ rw e (pill_iff s n m d hs)
]

-- The statuses that are texts, or are not there.
abbrev pub is_text : Option Json → Bool
is_text none = true
is_text (some null) = true
is_text (some (str s)) = true
is_text (some j) = false

module _ ⦃c : CaseMap⦄ (s : Text) where
  -- Is the record counted for the status?
  counts_for : Option Json → Bool
  counts_for none = false
  counts_for (some (str [])) = false
  counts_for (some (str (u ∷ w))) = same (normal (u ∷ w)) s
  counts_for (some null) = false
  counts_for (some (bool b)) = false
  counts_for (some (num n)) = false
  counts_for (some (arr js)) = false
  counts_for (some (obj fs)) = false

  value-add_status :
      (o : Option Json) (m : List (Text × ℕ))
      → value s (add_status o m) ≡ value s m + (if counts_for o then 1 else 0)
  unfolding add_status counts_for
  value-add_status none m = omega arith
  value-add_status (some (str [])) m = omega arith
  value-add_status (some (str (u ∷ w))) m = value-bump s (normal (u ∷ w)) m
  value-add_status (some null) m = omega arith
  value-add_status (some (bool b)) m = omega arith
  value-add_status (some (num n)) m = omega arith
  value-add_status (some (arr js)) m = omega arith
  value-add_status (some (obj fs)) m = omega arith

  value-count_statuses :
      (rs : List UniversalRecord) (m : List (Text × ℕ))
      → value s (count_statuses rs m) ≡ value s m + count (λ r. counts_for r.status) rs
  unfolding count_statuses
  value-count_statuses [] m = omega arith
  value-count_statuses (r ∷ rs) m =
      omega (arith, value-count_statuses rs (add_status r.status m), value-add_status r.status m)

  counts_for-is_text :
      (o : Option Json) → s ≢ [] → is_text o ≡ true → counts_for o ≡ same (normal (status_text o)) s
  unfolding counts_for status_text to_text trim to_lower
  counts_for-is_text none h k = ground (arith, same_iff [] s)
  counts_for-is_text (some null) h k = ground (arith, same_iff [] s)
  counts_for-is_text (some (str [])) h k = ground (arith, same_iff [] s)
  counts_for-is_text (some (str (u ∷ w))) h k = refl
  counts_for-is_text (some (bool b)) h k = cc
  counts_for-is_text (some (num n)) h k = cc
  counts_for-is_text (some (arr js)) h k = cc
  counts_for-is_text (some (obj fs)) h k = cc

  length-keep_status :
      (rs : List UniversalRecord)
      → s ≢ []
      → all (λ r. is_text r.status) rs ≡ true
      → length (keep (λ r. same (normal (status_text r.status)) s) rs)
        ≡ count (λ r. counts_for r.status) rs
  length-keep_status [] h k = refl
  length-keep_status (r ∷ rs) h k =
      ground (arith, counts_for-is_text r.status h, length-keep_status rs h)

module _ ⦃c : CaseMap⦄ where
  add_status-IsDistinct :
      (o : Option Json) (m : List (Text × ℕ))
      → IsDistinct m × ArePositive m
      → IsDistinct (add_status o m) × ArePositive (add_status o m)
  unfolding add_status
  add_status-IsDistinct none m h = h
  add_status-IsDistinct (some (str [])) m h = h
  add_status-IsDistinct (some (str (u ∷ w))) m (h, k) =
      (bump-IsDistinct (normal (u ∷ w)) m h, bump-ArePositive (normal (u ∷ w)) m k)
  add_status-IsDistinct (some null) m h = h
  add_status-IsDistinct (some (bool b)) m h = h
  add_status-IsDistinct (some (num n)) m h = h
  add_status-IsDistinct (some (arr js)) m h = h
  add_status-IsDistinct (some (obj fs)) m h = h

  count_statuses-IsDistinct :
      (rs : List UniversalRecord) (m : List (Text × ℕ))
      → IsDistinct m × ArePositive m
      → IsDistinct (count_statuses rs m) × ArePositive (count_statuses rs m)
  unfolding count_statuses
  count_statuses-IsDistinct [] m h = h
  count_statuses-IsDistinct (r ∷ rs) m h =
      count_statuses-IsDistinct rs (add_status r.status m) (add_status-IsDistinct r.status m h)

  filtered-length :
      (records : List UniversalRecord) (v : View) (s : Text)
      → same s (units "all") ≡ false
      → length (filtered_records records (record v { status_filter = s }))
        ≡ length (keep (λ r. same (normal (status_text r.status)) s) (active_records records v))
  unfolding filtered_records
  filtered-length records v s h = rw h refl

  -- If the status of every record on show is a text or missing, then the bar has a pill for a
  -- status (not empty, and not `all`) with a number exactly if the number is how many records the
  -- explorer shows for that status, and is not 0. The numbers of the pills descend.
  pub has_pill-filtered_records :
      (records : List UniversalRecord) (v : View) (s : Text) (n : ℕ)
      → all (λ r. is_text r.status) (active_records records v) ≡ true
      → s ≢ []
      → same s (units "all") ≡ false
      → ((has_pill s n (status_counts (active_records records v)) ≡ true)
          ↔ ((0 < n) × (length (filtered_records records (record v { status_filter = s })) ≡ n)))
        × IsSorted (descending (λ e. e.1)) (status_counts (active_records records v))
  unfolding status_counts value
  has_pill-filtered_records records v s n texts h k =
      let rs = active_records records v in
      let (d, pos) = count_statuses-IsDistinct rs [] (tt, tt) in
      let shown : length (filtered_records records (record v { status_filter = s }))
          ≡ value s (count_statuses rs []) =
        filtered-length records v s k
        ∙ length-keep_status s rs h texts
        ∙ omega (arith, value-count_statuses s rs []) in
      let order = descending {A = Text × ℕ} (λ e. e.1) in
      (
        rw (any-sort order (λ e. same e.0 s && (e.1 == n)) (count_statuses rs []), shown)
            (pill_iff s n (count_statuses rs []) d pos),
        sort-descending (λ e. e.1) (count_statuses rs []),
      )
