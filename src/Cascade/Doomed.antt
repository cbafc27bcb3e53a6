-- ===== src/Cascade/Doomed.antt =====
-- `DeleteAreaAndDeviceFindID` of WPD_MTP_dataDlg.cpp collects the ids of the marked nodes and of all
-- that stand below them.
use shujugongxiang.Prelude.{◌≡◌, refl, subst, ◌⊎◌, inl, inr, ◌↔◌, true, ◌&&◌, [], Bool-cases}
use mathlib.Core.Bool.{false≢true}
use shujugongxiang.Text.Defs.{Text, text_eq}
use shujugongxiang.Cascade.{
  Kind, kind_root, kind_areas, kind_devices, is_kind, Node, Tree, null, node, real_flag, want_flag,
  Found, add_node, mark_from, delete_area_and_device_find_id,
}
use shujugongxiang.Cascade.Members.{
  IsKey, In, Doomed, DoomedId, OwnId, keys_of, IsGroup, skip_own, add_node-IsKey,
  delete_find_id-IsKey,
}

module _ (kind : Kind) (x : Text) (g : IsGroup kind) where
  -- The node and what is below it, if it is marked.
  abbrev MarkedId : Text → Node → Tree → Type 0
  MarkedId flag n first =
      (m : Node) × (((n.delete_flag && text_eq n.delete_text flag) ≡ true) × ((m ≡ n) ⊎ In m first))
      × (is_kind m.kind kind ≡ true)
      × (x ≡ m.id)

  mark_from-IsKey :
      (flag : Text) (n : Node) (first : Tree) (found : Found)
      → IsKey x (keys_of kind (mark_from flag n first found))
        ↔ MarkedId flag n first ⊎ IsKey x (keys_of kind found)
  unfolding mark_from
  mark_from-IsKey flag n first found =
      elim (Bool-cases (n.delete_flag && text_eq n.delete_text flag)) [
        | inl marked ↦
            let own = add_node-IsKey kind x n found g in
            let low = delete_find_id-IsKey kind x g first (add_node n found) in
            rw marked (
              (λ h. elim (low.0 h) [
                | inl f ↦ inl (f.0, (refl, inr f.1), f.2, f.3)
                | inr h1 ↦ elim (own.0 h1) [
                  | inl o ↦ inl (n, (refl, inl refl), o.0, o.1)
                  | inr before ↦ inr before
                ]
              ]),
              (λ h. elim h [
                | inl i ↦ elim i.1.1 [
                  | inl e ↦ low.1 (inr (own.1 (inl (subst (λ m. OwnId kind x m) e (i.2, i.3)))))
                  | inr f ↦ low.1 (inl (i.0, f, i.2, i.3))
                ]
                | inr before ↦ low.1 (inr (own.1 (inr before)))
              ]),
            )
        | inr other ↦ rw other (skip_own (λ h. false≢true h.1.0))
      ]

  search_node :
      (flag : Text) (n : Node) (first next : Tree) (start after low side : Found)
      → (IsKey x (keys_of kind after) ↔ MarkedId flag n first ⊎ IsKey x (keys_of kind start))
      → (IsKey x (keys_of kind low) ↔ DoomedId flag kind x first ⊎ IsKey x (keys_of kind after))
      → (IsKey x (keys_of kind side) ↔ DoomedId flag kind x next ⊎ IsKey x (keys_of kind low))
      → (IsKey x (keys_of kind side)
          ↔ DoomedId flag kind x (node n first next) ⊎ IsKey x (keys_of kind start))
  unfolding Doomed
  search_node flag n first next start after low side marks below beside = (
    (λ h. elim (beside.0 h) [
      | inl s ↦ inl (s.0, inr (inr s.1), s.2, s.3)
      | inr h1 ↦ elim (below.0 h1) [
        | inl f ↦ inl (f.0, inr (inl f.1), f.2, f.3)
        | inr h2 ↦ elim (marks.0 h2) [
          | inl o ↦ inl (o.0, inl o.1, o.2, o.3)
          | inr before ↦ inr before
        ]
      ]
    ]),
    (λ h. elim h [
      | inl i ↦ elim i.1 [
        | inl o ↦ beside.1 (inr (below.1 (inr (marks.1 (inl (i.0, o, i.2, i.3))))))
        | inr rest ↦ elim rest [
          | inl f ↦ beside.1 (inr (below.1 (inl (i.0, f, i.2, i.3))))
          | inr s ↦ beside.1 (inl (i.0, s, i.2, i.3))
        ]
      ]
      | inr before ↦ beside.1 (inr (below.1 (inr (marks.1 (inr before)))))
    ]),
  )

  search_keys :
      (t : Tree) (real want : Found)
      → let result = delete_area_and_device_find_id t (real, want) in
        (IsKey x (keys_of kind result.0)
          ↔ DoomedId real_flag kind x t ⊎ IsKey x (keys_of kind real))
        × (IsKey x (keys_of kind result.1)
            ↔ DoomedId want_flag kind x t ⊎ IsKey x (keys_of kind want))
  unfolding delete_area_and_device_find_id Doomed
  search_keys null real want = (skip_own (λ h. h.1), skip_own (λ h. h.1))
  search_keys (node n first next) real want =
      let real1 = mark_from real_flag n first real in
      let want1 = mark_from want_flag n first want in
      let low = delete_area_and_device_find_id first (real1, want1) in
      let side = delete_area_and_device_find_id next low in
      let first_keys = search_keys first real1 want1 in
      let next_keys = search_keys next low.0 low.1 in
      (
        search_node real_flag n first next real real1 low.0 side.0
            (mark_from-IsKey real_flag n first real) first_keys.0 next_keys.0,
        search_node want_flag n first next want want1 low.1 side.1
            (mark_from-IsKey want_flag n first want) first_keys.1 next_keys.1,
      )

abbrev pub nothing_found : Found
nothing_found = record { areas = []; devices = [] }

-- The search, started with empty maps, collects exactly the ids of the areas and of the devices that
-- are marked for deletion or stand below a node that is, at any depth, and for wanted deletion
-- likewise. `kind` is that of areas or of devices.
pub delete_area_and_device_find_id_lem :
    (t : Tree) (kind : Kind) (x : Text)
    → IsGroup kind
    → let result = delete_area_and_device_find_id t (nothing_found, nothing_found) in
      (IsKey x (keys_of kind result.0) ↔ DoomedId real_flag kind x t)
      × (IsKey x (keys_of kind result.1) ↔ DoomedId want_flag kind x t)
unfolding IsKey
delete_area_and_device_find_id_lem t kind x g =
    let keys = search_keys kind x g t nothing_found nothing_found in
    (started keys.0, started keys.1)
  where
    no_keys : (k : Kind) → ¬ IsKey x (keys_of k nothing_found)
    no_keys kind_root h = h
    no_keys kind_areas h = h
    no_keys kind_devices h = h

    started : {A B : Type 0} → A ↔ B ⊎ IsKey x (keys_of kind nothing_found) → A ↔ B
    started e = (
      (λ a. elim (e.0 a) [ inl b ↦ b | inr none ↦ absurd (no_keys kind none) ]),
      (λ b. e.1 (inl b)),
    )
