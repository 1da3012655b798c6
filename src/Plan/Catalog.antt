-- ===== src/Plan/Catalog.antt =====
-- src/mailmap/cleanup_plan_domain.py: the catalog of targets that a plan may name.
use Prim.Native.String.{compare as compare_text}
use Prim.Native.Nat.{Ordering}
use mailcleanup.Prelude.{
  ℕ, ◌+◌, Bool, true, false, not, ◌&&◌, ◌||◌, String, ◌==◌, Option, none, some, List, [], ◌∷◌, ◌++◌,
  map, eqb, ltb, leb, leb_text, length, filter, contains, distinct, sort_by, if◌then◌else◌,
}
use mailcleanup.Plan.Model.{CreateCommand, RevalidateCommand, CancelCommand, TargetKind}
use mailcleanup.Plan.Result.{
  Result, ok, err, study_unavailable, require, check, traverse, ◌>>=◌, ◌>>◌,
}
use mailcleanup.Plan.Composition.{
  CompositionIndex, Entry, ProjectedSource, ProjectedFlow, lookup, visible,
}

-- What the plan engine takes from `hashlib`, `json`, Unicode case folding and `zoneinfo`. Dates are
-- ordinals, and `civil_midnight` is `none` where midnight does not exist in the plan's time zone.
pub record Platform : Type 0 where
  pub strip : String → String
  pub casefold : String → String
  pub message_digest : (account_key provider_message_id : String) → String
  pub sender_digest : (account_key address : String) → String
  pub label_digest : (account_key provider_label_id : String) → String
  pub selector_digest : String → String
  pub create_fingerprint : CreateCommand → String
  pub revalidate_fingerprint : RevalidateCommand → String → String
  pub cancel_fingerprint : CancelCommand → String → String
  pub civil_midnight : ℕ → Option ℕ
  pub local_date : ℕ → ℕ

pub data CatalogItem : Type 0 where
  source_item : (target_id display_name : String) (count : ℕ) (fingerprint : String) → CatalogItem
  flow_item :
      (target_id source_id display_name : String) (count : ℕ) (fingerprint : String) → CatalogItem
  sender_item : (target_id display_address : String) (count : ℕ) → CatalogItem
  label_item : (target_id display_name provider_label_id : String) (count : ℕ) → CatalogItem

abbrev pub item_id : CatalogItem → String
item_id (source_item id _ _ _) = id
item_id (flow_item id _ _ _ _) = id
item_id (sender_item id _ _) = id
item_id (label_item id _ _ _) = id

abbrev pub item_kind : CatalogItem → TargetKind
item_kind (source_item _ _ _ _) = TargetKind.source
item_kind (flow_item _ _ _ _ _) = TargetKind.flow
item_kind (sender_item _ _ _) = TargetKind.sender
item_kind (label_item _ _ _ _) = TargetKind.label

unfoldable pub catalog_rank : TargetKind → ℕ
catalog_rank TargetKind.source = 0
catalog_rank TargetKind.flow = 1
catalog_rank TargetKind.sender = 2
catalog_rank TargetKind.label = 3

unfoldable pub catalog_text : CatalogItem → String
catalog_text (source_item _ name _ _) = name
catalog_text (flow_item _ _ name _ _) = name
catalog_text (sender_item _ address _) = address
catalog_text (label_item _ name _ _) = name

-- `_SYSTEM_LABELS`
abbrev pub system_labels : List (String × String)
system_labels =
    ("INBOX", "Recibidos")
    ∷ ("CATEGORY_PERSONAL", "Principal")
    ∷ ("CATEGORY_SOCIAL", "Social")
    ∷ ("CATEGORY_PROMOTIONS", "Promociones")
    ∷ ("CATEGORY_UPDATES", "Actualizaciones")
    ∷ ("CATEGORY_FORUMS", "Foros")
    ∷ []

-- `source_selectors[id]`; `_index_composition` has checked that the key is there.
unfoldable pub selector_of : String → List (String × String) → Result String
selector_of id selectors = elim (lookup id selectors) [
  | none ↦ err study_unavailable
  | some key ↦ ok key
]

-- The count of each sender address, in the order of first appearance.
unfoldable pub count_sender : Option String → List (String × ℕ) → List (String × ℕ)
count_sender none counts = counts
count_sender (some a) [] = (a, 1) ∷ []
count_sender (some a) ((b, n) ∷ rest) =
    let others = count_sender (some a) rest in if b == a then (b, n + 1) ∷ rest else (b, n) ∷ others

unfoldable pub count_senders : List (Option String) → List (String × ℕ) → List (String × ℕ)
count_senders [] counts = counts
count_senders (a ∷ as') counts = count_senders as' (count_sender a counts)

unfoldable pub concat : List (List CatalogItem) → List CatalogItem
concat [] = []
concat (xs ∷ rest) = xs ++ concat rest

unfoldable pub find_item : String → List CatalogItem → Option CatalogItem
find_item k [] = none
find_item k (i ∷ is) = if item_id i == k then some i else find_item k is

module _ (platform : Platform) where
  open platform use {strip, casefold, sender_digest, label_digest, selector_digest}

  -- `canonical_sender_address_v1`
  unfoldable pub canonical_sender_address : Entry → Result (Option String)
  canonical_sender_address e = elim e.indexed.sender_address [
    | none ↦ ok none
    | some address ↦
        let normalized = casefold (strip address) in
        if not (normalized == "") && contains e.sender_addresses normalized
        then ok (some normalized)
        else err study_unavailable
  ]

  unfoldable pub text_before : String → String → Bool → Bool
  text_before a b tie = elim (compare_text a b) [
    | Ordering.lt ↦ true
    | Ordering.eq ↦ tie
    | Ordering.gt ↦ false
  ]

  -- `_catalog_sort_key`: the rank of the kind, then the folded text, then the id.
  unfoldable pub catalog_le : CatalogItem → CatalogItem → Bool
  catalog_le a b =
      let ra = catalog_rank (item_kind a) in
      let rb = catalog_rank (item_kind b) in
      ltb ra rb
      || eqb ra rb
        && text_before (casefold (catalog_text a)) (casefold (catalog_text b))
            (leb_text (item_id a) (item_id b))

  unfoldable pub flow_catalog_item : CompositionIndex → String → ProjectedFlow → Result CatalogItem
  flow_catalog_item index source_id flow = do
    require (visible (some flow.display_name)) study_unavailable
    selector ← selector_of flow.id index.flow_selectors
    check (not (flow.display_name == "") && leb 1 flow.message_count)
    ok (flow_item flow.id source_id flow.display_name flow.message_count (selector_digest selector))

  unfoldable pub source_catalog_items :
      CompositionIndex → ProjectedSource → Result (List CatalogItem)
  source_catalog_items index source = do
    require (visible (some source.display_name)) study_unavailable
    selector ← selector_of source.id index.source_selectors
    check (not (source.display_name == "") && leb 1 source.message_count)
    flows ← traverse (flow_catalog_item index source.id) source.flows
    ok (
        source_item source.id source.display_name source.message_count (selector_digest selector)
        ∷ flows)

  -- `sender_target_id_v1` refuses an address that is not in its canonical form, and the constructor
  -- of the item an address that is too long.
  unfoldable pub sender_catalog_item : CompositionIndex → String × ℕ → Result CatalogItem
  sender_catalog_item index (address, count) = do
    require (not (address == "") && (address == casefold (strip address))) study_unavailable
    check (visible (some address) && leb 1 count)
    ok (sender_item (sender_digest index.account_key address) address count)

  unfoldable pub label_catalog_items : CompositionIndex → String × String → List CatalogItem
  label_catalog_items index (label_id, name) =
      let count = length (filter (λ e. contains e.indexed.label_ids label_id) index.entries) in
      if eqb count 0
      then []
      else label_item (label_digest index.account_key label_id) name label_id count ∷ []

  -- `build_cleanup_target_catalog`, over the index that it builds first.
  unfoldable pub build_catalog : CompositionIndex → Result (List CatalogItem)
  unfolding catalog_le text_before catalog_rank catalog_text selector_of flow_catalog_item
      source_catalog_items sender_catalog_item label_catalog_items count_sender count_senders concat
  build_catalog index = do
    sources ← traverse (source_catalog_items index) index.projection.sources
    senders ← traverse canonical_sender_address index.entries
    counted ← traverse (sender_catalog_item index) (count_senders senders [])
    let labels = concat (map (label_catalog_items index) system_labels)
    let result = sort_by catalog_le (concat sources ++ (counted ++ labels))
    require (distinct (map item_id result)) study_unavailable
    ok result
