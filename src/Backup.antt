-- ===== src/Backup.antt =====
-- `OnClose` of `WPD_MTP_data/WPD_MTP_dataDlg.cpp`, and `DeleteDirectory`, which clears old copies of the
-- phone's database. The limit is the time BACKUPSAVETIME hours ago as text, the same in all folders.
pub mod Removed
use shujugongxiang.Prelude.{Bool, true, false, ◌||◌, not, List, [], ◌∷◌, ◌++◌, if◌then◌else◌}
use shujugongxiang.Text.Defs.{Text, codes, is_empty, text_eq}
use shujugongxiang.Log.{
  Listing, no_more, file_found, folder_found, dots_found, in_folder, text_less,
}
use shujugongxiang.Cascade.{Tree, clear_delete_tree_struct}
use shujugongxiang.Transfer.World.{Dialog}

-- SetFileAttributes, DeleteFile, RemoveDirectory.
pub data FileCall : Type 0 where
  set_normal remove_file remove_folder : Text → FileCall

-- The names that `continue` passes over.
unfoldable pub is_kept : Text → Text → Bool
is_kept limit name = text_eq name (codes "说明.txt") || not (text_less name limit)

unfoldable pub delete_directory : Text → Text → Listing → List FileCall
delete_directory limit path no_more = []
delete_directory limit path (dots_found rest) = delete_directory limit path rest
delete_directory limit path (file_found name rest) =
    let file = in_folder path name in
    let later = delete_directory limit path rest in
    if is_kept limit name then later else set_normal file ∷ remove_file file ∷ later
delete_directory limit path (folder_found name inner rest) =
    let folder = in_folder path name in
    let within = delete_directory limit folder inner in
    let later = delete_directory limit path rest in
    if is_kept limit name
    then later
    else set_normal folder ∷ (within ++ (remove_folder folder ∷ later))

-- The calls, and what is left of the dialog and of `m_deleteTree`.
pub on_close : Text → Listing → Dialog → Tree → List FileCall × Dialog × Tree
on_close limit backups s tree = (
  (if is_empty s.file_path then [] else remove_file s.file_path ∷ [])
      ++ delete_directory limit (codes ".//backUp") backups,
  record s { thread_flag = false },
  (clear_delete_tree_struct tree).0,
)
