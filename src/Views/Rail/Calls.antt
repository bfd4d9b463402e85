-- ===== src/Views/Rail/Calls.antt =====
-- The calls of the lists of partitions and of records.
use beast_db.Prelude.{◌≡◌, refl, Bool, true, false, List, [], ◌∷◌, all, arith}
use beast_db.Js.Text.{Text}
use beast_db.Js.BigInt.{to_decimal}
use beast_db.Js.Case.{CaseMap}
use beast_db.Types.{UniversalRecord}
use beast_db.Partitions.{Partition}
use beast_db.Views.Html.{say, el, every}
use beast_db.Views.Html.Laws.{every-each, every-when_text}
use beast_db.Views.Rail.{
  RailProps, partition_button, partition_rail, ListProps, document_row, rows, list_foot,
  document_list, breadcrumb,
}

module _ {E : Type 0} (p : E → Bool) where
  pub every-breadcrumb :
      (a b : Text) (back : List E) → all p back ≡ true → every p (breadcrumb a b back) ≡ true
  unfolding breadcrumb
  every-breadcrumb a b back h = ground (arith, every-when_text p b (el "span" (say b)) refl)

module _ {E : Type 0} (p : E → Bool) (r : RailProps E)
    (selects : (t : Text) → all p (r.on_select t) ≡ true) where
  every-partition_button : (x : Partition) → every p (partition_button r x) ≡ true
  unfolding partition_button
  every-partition_button x = ground (arith, selects (to_decimal x.prefix))

  pub every-partition_rail : every p (partition_rail r) ≡ true
  unfolding partition_rail
  every-partition_rail =
      ground (arith, every-each p (partition_button r) r.partitions every-partition_button)

module _ {E : Type 0} ⦃c : CaseMap⦄ (p : E → Bool) (d : ListProps E)
    (loads : all p d.on_load_more ≡ true)
    (selects : (r : UniversalRecord) → all p (d.on_select r) ≡ true)
    (backs : all p d.on_back ≡ true) (reads : d.can_write ≡ false) where
  every-document_row : (r : UniversalRecord) → every p (document_row d r) ≡ true
  unfolding document_row
  every-document_row r = ground (arith, selects r)

  every-rows : (rs : List UniversalRecord) → every p (rows d rs) ≡ true
  unfolding rows
  every-rows [] = ground arith
  every-rows (r ∷ rs) =
      ground (arith, every-document_row r, every-each p (document_row d) rs every-document_row)

  every-list_foot : every p (list_foot d) ≡ true
  unfolding list_foot
  every-list_foot = ground arith

  pub every-document_list : every p (document_list d) ≡ true
  unfolding document_list
  every-document_list = ground (arith, every-rows d.records, every-list_foot)
