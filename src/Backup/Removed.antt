-- ===== src/Backup/Removed.antt =====
-- Which files `DeleteDirectory` of WPD_MTP_dataDlg.cpp deletes.
use shujugongxiang.Prelude.{
  ◌≡◌, refl, sym, subst, ◌↔◌, ◌∙◌, ◌⊎◌, inl, inr, true, false, List, [], ◌∷◌, ◌++◌, All, Bool-cases,
}
use mathlib.Core.Bool.{false≢true}
use shujugongxiang.Text.Defs.{Text}
use shujugongxiang.Log.{Listing, no_more, file_found, folder_found, dots_found, in_folder}
use shujugongxiang.Backup.{
  FileCall, set_normal, remove_file, remove_folder, is_kept, delete_directory,
}

-- The file is deleted by one of the calls.
unfoldable pub Removes : Text → List FileCall → Type 0
Removes p [] = ⊥
Removes p (remove_file q ∷ calls) = (p ≡ q) ⊎ Removes p calls
Removes p (set_normal q ∷ calls) = Removes p calls
Removes p (remove_folder q ∷ calls) = Removes p calls

-- The file stands in the folder, at the end of these names.
unfoldable pub FileAt : Text → Listing → Text → List Text → Type 0
FileAt path no_more p names = ⊥
FileAt path (dots_found rest) p names = FileAt path rest p names
FileAt path (file_found name rest) p names =
    ((p ≡ in_folder path name) × (names ≡ name ∷ [])) ⊎ FileAt path rest p names
FileAt path (folder_found name inner rest) p names =
    ((below : List Text) × (names ≡ name ∷ below) × FileAt (in_folder path name) inner p below)
    ⊎ FileAt path rest p names

Removes-append :
    (p : Text) (xs ys : List FileCall) → Removes p (xs ++ ys) ↔ Removes p xs ⊎ Removes p ys
unfolding Removes
Removes-append p [] ys = ((λ h. inr h), (λ h. elim h [ inl n ↦ absurd n | inr r ↦ r ]))
Removes-append p (remove_file q ∷ xs) ys =
    let (there, back) = Removes-append p xs ys in
    (
      (λ h. elim h [
        | inl e ↦ inl (inl e)
        | inr later ↦ elim (there later) [ inl l ↦ inl (inr l) | inr r ↦ inr r ]
      ]),
      (λ h. elim h [
        | inl l ↦ elim l [ inl e ↦ inl e | inr m ↦ inr (back (inl m)) ]
        | inr r ↦ inr (back (inr r))
      ]),
    )
Removes-append p (set_normal q ∷ xs) ys = Removes-append p xs ys
Removes-append p (remove_folder q ∷ xs) ys = Removes-append p xs ys

module _ (limit p : Text) where
  abbrev pub IsOld : List Text → Type 0
  IsOld = All (λ name. is_kept limit name ≡ false)

  -- A file at the end of names none of which is kept.
  abbrev pub OldAt : Text → Listing → Type 0
  OldAt path l = (names : List Text) × FileAt path l p names × IsOld names

  kept_first :
      (name : Text) (names below : List Text)
      → is_kept limit name ≡ true
      → names ≡ name ∷ below
      → IsOld names
      → ⊥
  kept_first name names below kept e old = false≢true (sym (subst IsOld e old).0 ∙ kept)

  -- A file is deleted exactly if neither its name nor that of a folder around it, below the one that is
  -- cleared, is the note's or comes at or after the limit.
  pub delete_directory_lem :
      (path : Text) (l : Listing) → Removes p (delete_directory limit path l) ↔ OldAt path l
  unfolding delete_directory Removes FileAt
  delete_directory_lem path no_more = ((λ h. absurd h), (λ h. absurd h.1))
  delete_directory_lem path (dots_found rest) = delete_directory_lem path rest
  delete_directory_lem path (file_found name rest) =
      let (there, back) = delete_directory_lem path rest in
      elim (Bool-cases (is_kept limit name)) [
        | inl kept ↦ rw kept (
          (λ h. let (names, at, old) = there h in (names, inr at, old)),
          (λ (h : OldAt path (file_found name rest)). elim h.1 [
            | inl own ↦ absurd (kept_first name h.0 [] kept own.1 h.2)
            | inr later ↦ back (h.0, later, h.2)
          ]),
        )
        | inr old_name ↦ rw old_name (
          (λ h. elim h [
            | inl e ↦ (name ∷ [], inl (e, refl), (old_name, tt))
            | inr later ↦ let (names, at, old) = there later in (names, inr at, old)
          ]),
          (λ (h : OldAt path (file_found name rest)). elim h.1 [
            | inl own ↦ inl own.0
            | inr later ↦ inr (back (h.0, later, h.2))
          ]),
        )
      ]
  delete_directory_lem path (folder_found name inner rest) =
      let folder = in_folder path name in
      let (there, back) = delete_directory_lem path rest in
      let (into, out) = delete_directory_lem folder inner in
      let (split, unite) =
        Removes-append p (delete_directory limit folder inner)
          (remove_folder folder ∷ delete_directory limit path rest) in
      elim (Bool-cases (is_kept limit name)) [
        | inl kept ↦ rw kept (
          (λ h. let (names, at, old) = there h in (names, inr at, old)),
          (λ (h : OldAt path (folder_found name inner rest)). elim h.1 [
            | inl own ↦ absurd (kept_first name h.0 own.0 kept own.1 h.2)
            | inr later ↦ back (h.0, later, h.2)
          ]),
        )
        | inr old_name ↦ rw old_name (
          (λ h. elim (split h) [
            | inl w ↦
                let (below, at, old) = into w in
                (name ∷ below, inl (below, refl, at), (old_name, old))
            | inr later ↦ let (names, at, old) = there later in (names, inr at, old)
          ]),
          (λ (h : OldAt path (folder_found name inner rest)). elim h.1 [
            | inl own ↦ unite (inl (out (own.0, own.2, (subst IsOld own.1 h.2).1)))
            | inr later ↦ unite (inr (back (h.0, later, h.2)))
          ]),
        )
      ]
