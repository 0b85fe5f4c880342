-- ===== src/Compaction/Manifest.antt =====
-- crates/compaction/src/lib.rs: the compaction manifest and the guard against stale results. The decimal rendering of
-- a number and the first characters of a text are the parameters `print` and `first_chars`.
use zmodbit.Prelude.{
  ◌≡◌, refl, ap, sym, ◌∙◌, Option, none, some, List, [], ◌∷◌, ◌++◌, ℕ, ◌+◌, Text, bytes, push,
  push-append, append_nil, length, ltb, Result, ok, err, if◌then◌else◌, arith,
}

pub data Tier : Type 0 where
  hot warm cold : Tier

pub data Label : Type 0 where
  instruction decision approval fact resource_ref : Label

pub record PreservedItem : Type 0 where
  pub label : Label
  pub text : Text
  pub tier : Tier

pub record CompactionManifest : Type 0 where
  pub source_head : ℕ
  pub preserved : List PreservedItem
  pub compressed_projection : Text
  pub cold_refs : List Text

abbrev pub Item : Type 0
Item = Option Label × Text

-- What the loop builds.
pub record Draft : Type 0 where
  pub preserved : List PreservedItem
  pub warm_lines : List Text
  pub cold_refs : List Text

abbrev join_lines : List Text → Text
join_lines [] = []
join_lines (l ∷ []) = l
join_lines (l ∷ k ∷ ls) = l ++ (bytes "\n" ++ join_lines (k ∷ ls))

pub data ApplyError : Type 0 where
  stale : (computed_at_head current_head : ℕ) → ApplyError

unfoldable pub apply_compaction : CompactionManifest → ℕ → ℕ → Result ApplyError CompactionManifest
apply_compaction manifest computed_at_head current_head =
    if ltb computed_at_head current_head
    then err (stale computed_at_head current_head)
    else ok manifest

abbrev keep : Label → Text → Tier → Draft → Draft
keep label text tier d = record d {
  preserved = push d.preserved (record { label = label; text = text; tier = tier });
}

module _ (print : ℕ → Text) (first_chars : ℕ → Text → Text) where
  abbrev cold_id : ℕ → Text
  cold_id index = bytes "cold-" ++ print index

  abbrev chill : ℕ → Text → Draft → Draft
  chill index text d = record d {
    cold_refs = push d.cold_refs (cold_id index);
    warm_lines = push d.warm_lines (bytes "[" ++ (first_chars 40 text ++ bytes "]"));
  }

  abbrev add_item : ℕ → Option Label → Text → Draft → Draft
  add_item index (some instruction) text d = keep instruction text hot d
  add_item index (some decision) text d = keep decision text hot d
  add_item index (some approval) text d = keep approval text hot d
  add_item index (some fact) text d = keep fact text warm d
  add_item index (some resource_ref) text d =
      keep resource_ref (cold_id index) cold (chill index text d)
  add_item index none text d = chill index text d

  abbrev build_loop : ℕ → List Item → Draft → Draft
  build_loop index [] d = d
  build_loop index ((label, text) ∷ items) d =
      build_loop (index + 1) items (add_item index label text d)

  unfoldable pub build : ℕ → List Item → CompactionManifest
  build source_head items =
      let d = build_loop 0 items (record { preserved = []; warm_lines = []; cold_refs = [] }) in
      record {
        source_head = source_head;
        preserved = d.preserved;
        compressed_projection =
            bytes "compact head="
            ++ print source_head
            ++ (bytes " items=" ++ print (length items))
            ++ (bytes "\n" ++ join_lines d.warm_lines);
        cold_refs = d.cold_refs;
      }

  -- The items whose label asks for them word by word, with that label.
  abbrev pub verbatim : List Item → List (Label × Text)
  verbatim [] = []
  verbatim ((some instruction, text) ∷ items) = (instruction, text) ∷ verbatim items
  verbatim ((some decision, text) ∷ items) = (decision, text) ∷ verbatim items
  verbatim ((some approval, text) ∷ items) = (approval, text) ∷ verbatim items
  verbatim ((some fact, text) ∷ items) = verbatim items
  verbatim ((some resource_ref, text) ∷ items) = verbatim items
  verbatim ((none, text) ∷ items) = verbatim items

  abbrev pub hot_items : List PreservedItem → List (Label × Text)
  hot_items [] = []
  hot_items (i ∷ is) = elim i.tier [
    | hot ↦ (i.label, i.text) ∷ hot_items is
    | warm ↦ hot_items is
    | cold ↦ hot_items is
  ]

  hot_items-append :
      (is js : List PreservedItem) → hot_items (is ++ js) ≡ hot_items is ++ hot_items js
  hot_items-append [] js = refl
  hot_items-append (i ∷ is) js = ground (arith, hot_items-append is js)

  hot_items-push :
      (is : List PreservedItem) (label : Label) (text : Text)
      → hot_items (push is (record { label = label; text = text; tier = hot }))
        ≡ push (hot_items is) (label, text)
  hot_items-push is label text = hot_items-append is _

  hot_items-push_warm :
      (is : List PreservedItem) (label : Label) (text : Text)
      → hot_items (push is (record { label = label; text = text; tier = warm })) ≡ hot_items is
  hot_items-push_warm is label text = hot_items-append is _ ∙ append_nil (hot_items is)

  hot_items-push_cold :
      (is : List PreservedItem) (label : Label) (text : Text)
      → hot_items (push is (record { label = label; text = text; tier = cold })) ≡ hot_items is
  hot_items-push_cold is label text = hot_items-append is _ ∙ append_nil (hot_items is)

  build_loop-verbatim :
      (items : List Item) (index : ℕ) (d : Draft)
      → hot_items (build_loop index items d).preserved ≡ hot_items d.preserved ++ verbatim items
  build_loop-verbatim [] index d = sym (append_nil (hot_items d.preserved))
  build_loop-verbatim ((some instruction, text) ∷ items) index d =
      build_loop-verbatim items (index + 1) _
      ∙ ap (λ xs. xs ++ verbatim items) (hot_items-push d.preserved instruction text)
      ∙ push-append (hot_items d.preserved) (verbatim items) (instruction, text)
  build_loop-verbatim ((some decision, text) ∷ items) index d =
      build_loop-verbatim items (index + 1) _
      ∙ ap (λ xs. xs ++ verbatim items) (hot_items-push d.preserved decision text)
      ∙ push-append (hot_items d.preserved) (verbatim items) (decision, text)
  build_loop-verbatim ((some approval, text) ∷ items) index d =
      build_loop-verbatim items (index + 1) _
      ∙ ap (λ xs. xs ++ verbatim items) (hot_items-push d.preserved approval text)
      ∙ push-append (hot_items d.preserved) (verbatim items) (approval, text)
  build_loop-verbatim ((some fact, text) ∷ items) index d =
      build_loop-verbatim items (index + 1) _
      ∙ ap (λ xs. xs ++ verbatim items) (hot_items-push_warm d.preserved fact text)
  build_loop-verbatim ((some resource_ref, text) ∷ items) index d =
      build_loop-verbatim items (index + 1) _
      ∙ ap (λ xs. xs ++ verbatim items) (hot_items-push_cold d.preserved resource_ref _)
  build_loop-verbatim ((none, text) ∷ items) index d = build_loop-verbatim items (index + 1) _

  -- The hot items of a manifest are exactly the instructions, decisions and approvals, word by word and in order.
  pub build-verbatim :
      (source_head : ℕ) (items : List Item)
      → hot_items (build source_head items).preserved ≡ verbatim items
  unfolding build
  build-verbatim source_head items = build_loop-verbatim items 0 _
