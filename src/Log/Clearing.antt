-- ===== src/Log/Clearing.antt =====
-- Which files `CLogRecord::ClearLog` of LogRecord.cpp deletes.
use shujugongxiang.Prelude.{
  ℕ, ◌≡◌, ◌≢◌, refl, ap, ap₂, sym, ◌∙◌, ◌⊎◌, ◌↔◌, inl, inr, Bool, true, false, not, ◌&&◌, List, [],
  ◌∷◌, ◌++◌, length, All, Bool-cases, ◌==◌, if◌then◌else◌, subst, arith,
}
use mathlib.Core.Bool.{false≢true}
use shujugongxiang.Text.Defs.{Text, codes}
use shujugongxiang.Cascade.Members.{IsKey}
use shujugongxiang.Log.{
  Listing, no_more, file_found, folder_found, dots_found, has_more, backslash, in_folder,
  traverse_dir, text_less, last_part, is_old, old_files, LogEnv, LogRecord, cleared,
}

-- All files of a folder and of the folders in it.
unfoldable pub all_files : Text → Listing → List Text
all_files path no_more = []
all_files path (file_found name rest) = in_folder path name ∷ all_files path rest
all_files path (folder_found name inner rest) =
    all_files (in_folder path name) inner ++ all_files path rest
all_files path (dots_found rest) = all_files path rest

-- Without the last entry of each folder.
unfoldable pub drop_last : Listing → Listing
drop_last no_more = no_more
drop_last (file_found name rest) =
    let rest' = drop_last rest in if has_more rest then file_found name rest' else no_more
drop_last (folder_found name inner rest) =
    let inner' = drop_last inner in
    let rest' = drop_last rest in if has_more rest then folder_found name inner' rest' else no_more
drop_last (dots_found rest) =
    let rest' = drop_last rest in if has_more rest then dots_found rest' else no_more

pub traverse_dir_lem :
    (path : Text) (l : Listing) → traverse_dir path l ≡ all_files path (drop_last l)
unfolding traverse_dir all_files drop_last
traverse_dir_lem path no_more = refl
traverse_dir_lem path (file_found name rest) = elim (Bool-cases (has_more rest)) [
  | inl more ↦ rw more (ap (λ later. in_folder path name ∷ later) (traverse_dir_lem path rest))
  | inr last ↦ rw last refl
]
traverse_dir_lem path (folder_found name inner rest) = elim (Bool-cases (has_more rest)) [
  | inl more ↦ rw more (
      ap₂ (λ xs ys. xs ++ ys) (traverse_dir_lem (in_folder path name) inner)
        (traverse_dir_lem path rest))
  | inr last ↦ rw last refl
]
traverse_dir_lem path (dots_found no_more) = refl
traverse_dir_lem path (dots_found (file_found n r)) = traverse_dir_lem path (file_found n r)
traverse_dir_lem path (dots_found (folder_found n i r)) = traverse_dir_lem path (folder_found n i r)
traverse_dir_lem path (dots_found (dots_found r)) = traverse_dir_lem path (dots_found r)

old_files-IsKey :
    (day p : Text) (paths : List Text)
    → IsKey p (old_files day paths) ↔ IsKey p paths × (is_old day p ≡ true)
unfolding IsKey old_files
old_files-IsKey day p [] = ((λ h. absurd h), (λ h. absurd h.0))
old_files-IsKey day p (path ∷ paths) =
    let (there, back) = old_files-IsKey day p paths in
    elim (Bool-cases (is_old day path)) [
      | inl old ↦ rw old (
        (λ (h : (p ≡ path) ⊎ IsKey p (old_files day paths)). elim h [
          | inl e ↦ (inl e, ap (is_old day) e ∙ old)
          | inr later ↦ (inr (there later).0, (there later).1)
        ]),
        (λ (h : ((p ≡ path) ⊎ IsKey p paths) × (is_old day p ≡ true)). elim h.0 [
          | inl e ↦ inl e
          | inr later ↦ inr (back (later, h.1))
        ]),
      )
      | inr new ↦ rw new (
        (λ (h : IsKey p (old_files day paths)). (inr (there h).0, (there h).1)),
        (λ (h : ((p ≡ path) ⊎ IsKey p paths) × (is_old day p ≡ true)). elim h.0 [
          | inl e ↦ absurd (false≢true (sym new ∙ sym (ap (is_old day) e) ∙ h.1))
          | inr later ↦ back (later, h.1)
        ]),
      )
    ]

-- The name of a file.
abbrev pub IsName : Text → Type 0
IsName = All (λ c. c ≢ backslash)

unfoldable pub is_name : Text → Bool
is_name [] = true
is_name (c ∷ name) = not (c == backslash) && is_name name

other_char : (c d : ℕ) (b : Bool) → (not (c == d) && b) ≡ true → (c ≢ d) × (b ≡ true)
other_char c d b h = ((λ e. absurd (ground (arith, e, h))), ground (arith, h))

pub is_name-IsName : (name : Text) → is_name name ≡ true → IsName name
unfolding is_name
is_name-IsName [] h = tt
is_name-IsName (c ∷ name) h =
    let (other, rest) = other_char c backslash (is_name name) h in (other, is_name-IsName name rest)

differs : (c d : ℕ) → c ≢ d → (c == d) ≡ false
differs c d h = ground arith

last_part-name : (part name : Text) → IsName name → last_part part name ≡ part
unfolding last_part
last_part-name part [] ok = refl
last_part-name part (c ∷ name) ok = rw (differs c backslash ok.0) (last_part-name part name ok.1)

last_part-append :
    (part folder name : Text) → IsName name → last_part part (folder ++ (backslash ∷ name)) ≡ name
unfolding last_part
last_part-append part [] name ok = last_part-name name name ok
last_part-append part (c ∷ folder) name ok = elim (Bool-cases (c == backslash)) [
  | inl cut ↦ rw cut (last_part-append (folder ++ (backslash ∷ name)) folder name ok)
  | inr on ↦ rw on (last_part-append part folder name ok)
]

text_less-hourly :
    (date limit rest : Text)
    → length date ≡ length limit
    → text_less (date ++ (codes "-" ++ rest)) (limit ++ codes ".log") ≡ not (text_less limit date)
unfolding text_less
text_less-hourly [] [] rest e = refl
text_less-hourly [] (d ∷ limit) rest e = absurd (omega (arith, e))
text_less-hourly (c ∷ date) [] rest e = absurd (omega (arith, e))
text_less-hourly (c ∷ date) (d ∷ limit) rest e =
    let later = text_less-hourly date limit rest (omega (arith, e)) in ground (arith, later)

not-true : (b : Bool) → not b ≡ true → b ≡ false
not-true true h = absurd (false≢true h)
not-true false h = refl

module _ (env : LogEnv) (day : ℕ) (s : LogRecord) where
  abbrev pub logfiles : Text
  logfiles = s.app_path ++ codes "\\logfiles"

  -- A file whose name is a date, a dash and more, the date as long as that of the limit, is deleted
  -- exactly if CFileFind gave neither it nor a folder around it last in its folder, and its date is not
  -- after the limit: the files of the limit's own day are deleted too.
  pub clear_log_lem :
      (folder date rest : Text)
      → IsName (date ++ (codes "-" ++ rest))
      → length date ≡ length (env.date_before day)
      → let path = folder ++ (backslash ∷ date ++ (codes "-" ++ rest)) in
        IsKey path (cleared env day s)
        ↔ IsKey path (all_files logfiles (drop_last (env.listing s.calls logfiles)))
          × (text_less (env.date_before day) date ≡ false)
  unfolding is_old
  clear_log_lem folder date rest named same =
      let name = date ++ (codes "-" ++ rest) in
      let path = folder ++ (backslash ∷ name) in
      let limit = env.date_before day in
      let old : is_old limit path ≡ not (text_less limit date) =
        rw (last_part-append path folder name named) (text_less-hourly date limit rest same) in
      let listed = traverse_dir_lem logfiles (env.listing s.calls logfiles) in
      let (there, back) =
        old_files-IsKey limit path (traverse_dir logfiles (env.listing s.calls logfiles)) in
      (
        (λ h. (
          subst (IsKey path) listed (there h).0,
          not-true (text_less limit date) (sym old ∙ (there h).1),
        )),
        (λ h. back (subst (IsKey path) (sym listed) h.0, old ∙ ap not h.1)),
      )
