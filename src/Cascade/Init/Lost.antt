-- ===== src/Cascade/Init/Lost.antt =====
-- What `DeleteAreaAndDeviceFindID` of WPD_MTP_dataDlg.cpp dooms in the tree that `InitDeleteTreeStruct`
-- builds, in terms of the rows of areas and devices.
use shujugongxiang.Prelude.{ℕ, ◌<◌, ◌≡◌, ◌⊎◌, inl, inr, ◌↔◌, true, some}
use shujugongxiang.Text.Defs.{Text}
use shujugongxiang.Cascade.{Kind, kind_areas, kind_devices, is_kind, Node, Tree}
use shujugongxiang.Cascade.Members.{In, DoomedId}
use shujugongxiang.Cascade.Above.{Above, IsMarked, Doomed-Over}
use shujugongxiang.Cascade.Build.{Maps, Falls}
use shujugongxiang.Cascade.Init.{init_delete_tree_struct}
use shujugongxiang.Cascade.Init.Whole.{root}
use shujugongxiang.Cascade.Init.Descent.{IsExpected, Ancestor, init_delete_tree_struct-Above}

module _ (areas devices : Maps) (type_area : Text → Text) (user_area : Text)
    (depth_a depth_d : Text → ℕ) (fuel : ℕ) where
  -- The node stands in the rows and is marked, or one above it in the rows is.
  abbrev pub Lost : Text → Node → Type 0
  Lost flag m =
      (c : Node) × IsMarked flag c
      × ((((m ≡ root areas devices type_area user_area depth_a depth_d fuel)
              ⊎ IsExpected areas devices type_area user_area depth_a depth_d fuel m)
            × (c ≡ m))
          ⊎ Ancestor areas devices type_area user_area depth_a depth_d fuel c m)

  abbrev pub LostId : Text → Kind → Text → Type 0
  LostId flag kind x = (m : Node) × Lost flag m × (is_kind m.kind kind ≡ true) × (x ≡ m.id)

  Doomed-Lost :
      (t : Tree)
      → ((m : Node)
          → In m t
            ↔ (m ≡ root areas devices type_area user_area depth_a depth_d fuel)
              ⊎ IsExpected areas devices type_area user_area depth_a depth_d fuel m)
      → ((c m : Node)
          → Above c m t ↔ Ancestor areas devices type_area user_area depth_a depth_d fuel c m)
      → (flag : Text) (kind : Kind) (x : Text) → DoomedId flag kind x t ↔ LostId flag kind x
  Doomed-Lost t inside above flag kind x = (
    (λ (m, doomed, is, same).
        let (c, marked, o) = (Doomed-Over flag m t).0 doomed in
        (
          m,
          (
            c,
            marked,
            elim o [ inl (i, e) ↦ inl ((inside m).0 i, e) | inr high ↦ inr ((above c m).0 high) ],
          ),
          is,
          same,
        )),
    (λ (m, (c, marked, o), is, same). (
      m,
      (Doomed-Over flag m t).1 (
        c,
        marked,
        elim o [ inl (i, e) ↦ inl ((inside m).1 i, e) | inr high ↦ inr ((above c m).1 high) ],
      ),
      is,
      same,
    )),
  )

  -- The tree that is built dooms exactly the lost ids.
  pub lost_tree :
      areas.kind ≡ kind_areas
      → devices.kind ≡ kind_devices
      → Falls depth_a areas.parents
      → Falls depth_d devices.parents
      → ((id : Text) → depth_a id < fuel)
      → ((id : Text) → depth_d id < fuel)
      → (t : Tree) × (init_delete_tree_struct fuel areas devices type_area user_area ≡ some t)
        × ((flag : Text) (kind : Kind) (x : Text) → DoomedId flag kind x t ↔ LostId flag kind x)
  lost_tree a d falls_a falls_d enough_a enough_d =
      let (t, built, inside, above) =
        init_delete_tree_struct-Above areas devices type_area user_area depth_a depth_d fuel a d
          falls_a falls_d enough_a enough_d in
      (t, built, Doomed-Lost t inside above)
