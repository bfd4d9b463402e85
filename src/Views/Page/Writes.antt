-- ===== src/Views/Page/Writes.antt =====
-- What the explorer offers to those who may write, and to those who may not.
use beast_db.Prelude.{
  ◌≡◌, refl, ◌∙◌, Bool, true, false, not, Option, none, some, List, [], ◌∷◌, all, any, arith,
  Bool-cases, inl, inr,
}
use beast_db.Js.Text.{Text}
use beast_db.Js.Case.{CaseMap}
use beast_db.Js.Platform.{Platform}
use beast_db.Explorer.{View, SearchMeta, partitions}
use beast_db.Views.Html.{every, calls}
use beast_db.Views.Html.Laws.{all-calls}
use beast_db.Views.Formats.{Formats}
use beast_db.Views.SearchBar.{global_search_bar}
use beast_db.Views.Banner.{search_coverage_banner}
use beast_db.Views.Toolbar.{records_toolbar}
use beast_db.Views.Content.{explorer_content}
use beast_db.Views.Rail.Calls.{every-breadcrumb}
use beast_db.Views.SearchBar.Calls.{every-global_search_bar}
use beast_db.Views.Banner.Calls.{every-search_coverage_banner}
use beast_db.Views.Toolbar.Calls.{every-records_toolbar}
use beast_db.Views.Content.Calls.{every-explorer_content}
use beast_db.Views.Page.{
  Action, new_record, continue_scan, delete, delete_user, edit, set_pane, Props, bar_props,
  banner_props, toolbar_props, content_props, banner, alert, records_view, partition_title,
}

-- The functions of the page that lead to a write.
abbrev pub is_write : Action → Bool
is_write new_record = true
is_write (delete key) = true
is_write (delete_user user_hash) = true
is_write (edit r) = true
is_write a = false

abbrev is_read : Action → Bool
is_read a = not (is_write a)

any-not {ℓ} : {A : Type ℓ} (q : A → Bool) (xs : List A) → any q xs ≡ not (all (λ x. not (q x)) xs)
any-not q [] = refl
any-not q (x ∷ xs) = ground (arith, any-not q xs)

every-alert : (e : Option Text) → every is_read (alert e) ≡ true
unfolding alert
every-alert none = refl
every-alert (some []) = refl
every-alert (some (u ∷ s)) = refl

module _ (f : Formats) (p : Props) (v : View) where
  every-search_bar : every is_read (global_search_bar (bar_props p v)) ≡ true
  unfolding bar_props
  every-search_bar =
      every-global_search_bar is_read (bar_props p v) (λ t o. ground arith) (λ t. ground arith)
        (λ a b. ground arith) (λ m. refl)

  every-banner_props :
      (m : SearchMeta) → every is_read (search_coverage_banner f (banner_props p v m)) ≡ true
  unfolding banner_props
  every-banner_props m =
      every-search_coverage_banner is_read f (banner_props p v m) (continue_scan ∷ []) refl
        (ground arith) refl

  every-banner : (o : Option SearchMeta) → every is_read (banner f p v o) ≡ true
  unfolding banner
  every-banner none = ground arith
  every-banner (some m) = ground (arith, every-banner_props m)

module _ ⦃c : CaseMap⦄ (js : Platform) (f : Formats) (p : Props) (v : View) where
  every-toolbar : every is_read (records_toolbar (toolbar_props p v)) ≡ not p.can_write
  unfolding toolbar_props
  every-toolbar =
      every-records_toolbar is_read (toolbar_props p v) (λ t. refl) (λ m. refl) ∙ ground arith

  every-content :
      p.can_write ≡ false → every is_read (explorer_content js f (content_props p v)) ≡ true
  unfolding content_props
  every-content reads =
      every-explorer_content is_read (content_props p v) (λ o. refl) (λ x. refl) refl (λ t. refl)
        (λ t l. refl) (λ t. refl) (λ n. refl) reads js f

  every-records_view : every is_read (records_view js f p v) ≡ not p.can_write
  unfolding records_view
  every-records_view =
      let title = partition_title v.partition p.partition_list in
      let record_label : Text = elim v.selected [ none ↦ [] | some r ↦ r.primary_label ] in
      elim (Bool-cases p.can_write) [
        | inl writes ↦ ground (arith, every-toolbar)
        | inr reads ↦ ground (
          arith,
          every-breadcrumb is_read title record_label (set_pane partitions ∷ []) refl,
          every-search_bar f p v,
          every-banner f p v v.search_meta,
          every-alert p.error,
          every-toolbar,
          every-content reads,
        )
      ]

  -- The page of the explorer offers some write (a new record, an edit, the deletion of a record or
  -- of a user) exactly if its user may write, whatever is shown or selected.
  pub any-records_view : any is_write (calls (records_view js f p v)) ≡ p.can_write
  any-records_view =
      any-not is_write (calls (records_view js f p v))
      ∙ ground (arith, all-calls is_read (records_view js f p v), every-records_view)
