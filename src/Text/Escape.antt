-- ===== src/Text/Escape.antt =====
-- Quoting of values for SQL: the list of quoted ids that the `Synchrodata_…` functions of
-- `WPD_MTP_data/WPD_MTP_dataDlg.cpp` put into `in(…)`, and the replacement of backslashes and quotes
-- in `Synchrodata_work_record`.
use shujugongxiang.Prelude.{
  ℕ, ◌+◌, ◌≡◌, ◌≢◌, refl, ap, sym, Bool, true, false, ◌||◌, Option, none, some, inl, inr,
  Bool-cases, Option-cases, List, [], ◌∷◌, ◌++◌, append_assoc, ◌==◌, if◌then◌else◌, All, arith,
}
use mathlib.Core.Option
use shujugongxiang.Text.Defs.{Text, codes, find_char}

-- `s.Replace(c, new)`.
unfoldable pub replace_char : ℕ → Text → Text → Text
replace_char c new [] = []
replace_char c new (x ∷ s) = (if x == c then new else x ∷ []) ++ replace_char c new s

abbrev pub backslash : ℕ
backslash = 92

abbrev pub quote : ℕ
quote = 39

-- `if (-1 != s.Find(c)) s.Replace(c, new)`.
pub replace_if_found : ℕ → Text → Text → Text
replace_if_found c new s = elim (find_char s c) [ none ↦ s | some i ↦ replace_char c new s ]

-- The conversion of one field of a `work_record` row.
pub escape_field : Text → Text
escape_field s =
    replace_if_found quote (backslash ∷ quote ∷ [])
      (replace_if_found backslash (backslash ∷ backslash ∷ []) s)

-- The text begins with a quote.
unfoldable pub starts_quote : Text → Bool
starts_quote [] = false
starts_quote (c ∷ s) = c == quote

-- How the server reads the inside of a quoted literal: up to the first quote that no backslash
-- precedes; two quotes in a row stand for one. `none` is a literal that does not end, or an escape that
-- this conversion never writes.
unfoldable pub read_literal : Text → Option (Text × Text)
read_literal [] = none
read_literal (c ∷ []) = if c == quote then some ([], []) else none
read_literal (c ∷ d ∷ s) =
    if c == quote
    then (if d == quote
        then Option.map (λ r. (d ∷ r.0, r.1)) (read_literal s)
        else some ([], d ∷ s))
    else if c == backslash
    then (if d == quote || d == backslash
        then Option.map (λ r. (d ∷ r.0, r.1)) (read_literal s)
        else none)
    else Option.map (λ r. (c ∷ r.0, r.1)) (read_literal (d ∷ s))

-- The list `'a','b','c'`, built from the first id on.
pub quoted_from : ℕ → List Text → Text
quoted_from index [] = []
quoted_from index (id ∷ ids) =
    (if index == 0 then codes "'" else codes ",'") ++ (id ++ (quote ∷ quoted_from (index + 1) ids))

pub quoted_list : List Text → Text
quoted_list ids = quoted_from 0 ids

find_char-none-replace : (c : ℕ) (new s : Text) → find_char s c ≡ none → replace_char c new s ≡ s
unfolding find_char replace_char
find_char-none-replace c new [] h = refl
find_char-none-replace c new (x ∷ s) h = elim (Bool-cases (x == c)) [
  | inl same ↦ absurd (ground arith)
  | inr other ↦ rw other (ap (λ t. x ∷ t) (find_char-none-replace c new s (ground arith)))
]

-- The test before the replacement only saves work.
replace_if_found_lem : (c : ℕ) (new s : Text) → replace_if_found c new s ≡ replace_char c new s
unfolding replace_if_found
replace_if_found_lem c new s = elim (Option-cases (find_char s c)) [
  | inl missing ↦ rw (missing, replace_if_found) (sym (find_char-none-replace c new s missing))
  | inr (i, found) ↦ rw (found, replace_if_found) refl
]

escape_char : ℕ → Text
escape_char x = if x == backslash || x == quote then backslash ∷ x ∷ [] else x ∷ []

replace_char-append :
    (c : ℕ) (new s t : Text)
    → replace_char c new (s ++ t) ≡ replace_char c new s ++ replace_char c new t
unfolding replace_char
replace_char-append c new [] t = refl
replace_char-append c new (x ∷ s) t = rw (replace_char-append c new s t) (
    sym
      (append_assoc (if x == c then new else x ∷ []) (replace_char c new s) (replace_char c new t)))

replace_char-cons :
    (c : ℕ) (new : Text) (x : ℕ) (s : Text)
    → replace_char c new (x ∷ s) ≡ (if x == c then new else x ∷ []) ++ replace_char c new s
unfolding replace_char
replace_char-cons c new x s = refl

both_replacements :
    (x : ℕ)
    → replace_char quote
        (backslash ∷ quote ∷ [])
        (if x == backslash then backslash ∷ backslash ∷ [] else x ∷ [])
      ≡ escape_char x
unfolding replace_char escape_char
both_replacements x = ground arith

-- Character by character, both replacements at once.
escape_field-cons : (x : ℕ) (s : Text) → escape_field (x ∷ s) ≡ escape_char x ++ escape_field s
unfolding escape_field
escape_field-cons x s = simp (
  replace_if_found_lem,
  replace_char-cons backslash (backslash ∷ backslash ∷ []) x s,
  replace_char-append,
  both_replacements,
)

read_plain :
    (x : ℕ) (s : Text) (r : Text × Text)
    → (x == quote) ≡ false
    → (x == backslash) ≡ false
    → read_literal s ≡ some r
    → read_literal (x ∷ s) ≡ some (x ∷ r.0, r.1)
unfolding read_literal
read_plain x [] r h k e = cc
read_plain x (d ∷ s) r h k e = ground (arith)

read_escaped :
    (x : ℕ) (s : Text) (r : Text × Text)
    → (x == backslash || x == quote) ≡ true
    → read_literal s ≡ some r
    → read_literal (backslash ∷ x ∷ s) ≡ some (x ∷ r.0, r.1)
unfolding read_literal
read_escaped x s r h e = ground arith

read_escape_char :
    (x : ℕ) (s : Text) (r : Text × Text)
    → read_literal s ≡ some r
    → read_literal (escape_char x ++ s) ≡ some (x ∷ r.0, r.1)
unfolding escape_char
read_escape_char x s r e = elim (Bool-cases (x == backslash || x == quote)) [
  | inl special ↦ rw special (read_escaped x s r special e)
  | inr plain ↦ rw plain (read_plain x s r (ground arith) (ground arith) e)
]

escape_field-nil : escape_field [] ≡ []
unfolding escape_field replace_if_found find_char
escape_field-nil = refl

read_end : (rest : Text) → starts_quote rest ≡ false → read_literal (quote ∷ rest) ≡ some ([], rest)
unfolding read_literal starts_quote
read_end [] h = refl
read_end (d ∷ rest) h = rw h refl

-- A quoted field is read back by the server as the field, and what follows it as what follows, if that
-- does not begin with a quote: no character of a converted field ends the literal.
pub read_literal-escape_field :
    (s rest : Text)
    → starts_quote rest ≡ false
    → read_literal (escape_field s ++ (quote ∷ rest)) ≡ some (s, rest)
read_literal-escape_field [] rest h = rw escape_field-nil (read_end rest h)
read_literal-escape_field (x ∷ s) rest h =
    rw (escape_field-cons x s, append_assoc)
      (read_escape_char x (escape_field s ++ (quote ∷ rest)) (s, rest)
        (read_literal-escape_field s rest h))

-- A field with a quote that is not converted, and no quote behind it, ends the literal early: the
-- server takes the rest of the field for SQL.
pub read_literal_unescaped :
    (before after rest : Text) (c : ℕ)
    → All (λ d. (d ≢ quote) × (d ≢ backslash)) before
    → (c == quote) ≡ false
    → read_literal ((before ++ (quote ∷ c ∷ after)) ++ (quote ∷ rest))
      ≡ some (before, (c ∷ after) ++ (quote ∷ rest))
unfolding starts_quote
read_literal_unescaped [] after rest c h other = read_end ((c ∷ after) ++ (quote ∷ rest)) other
read_literal_unescaped (x ∷ before) after rest c h other =
    read_plain x ((before ++ (quote ∷ c ∷ after)) ++ (quote ∷ rest))
      (before, (c ∷ after) ++ (quote ∷ rest)) (ground (arith, h.0.0)) (ground (arith, h.0.1))
      (read_literal_unescaped before after rest c h.1 other)
