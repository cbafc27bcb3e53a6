-- ===== src/Text/Split.antt =====
-- `MyStringSplit` of `WPD_MTP_data/WPD_MTP_dataDlg.cpp`, which cuts the configured phone path.
use shujugongxiang.Prelude.{
  ℕ, zero, suc, ◌+◌, ◌<◌, ◌≡◌, ◌≢◌, refl, ap, sym, ◌∙◌, ◌⊎◌, inl, inr, Option, none, some,
  Option-cases, Bool-cases, List, [], ◌∷◌, ◌++◌, append-nil, append_assoc, length, take, drop,
  length-drop, All, ◌==◌, if◌then◌else◌, arith,
}
use shujugongxiang.Text.Defs.{Text, is_empty, find_char}

-- The recursion is on a shorter text: `fuel` above the length of `source` is enough.
pub my_string_split : ℕ → Text → List Text → ℕ → Option (List Text)
my_string_split zero source dest division = none
my_string_split (suc fuel) source dest division =
    let rest = λ (pos : ℕ).
      my_string_split fuel (drop (pos + 1) source) (dest ++ (take pos source ∷ [])) division in
    if is_empty source then some dest else elim (find_char source division) [
      | none ↦ some (dest ++ (source ∷ []))
      | some pos ↦ rest pos
    ]

-- A text without the separator.
abbrev pub Avoids : ℕ → Text → Type 0
Avoids division = All (λ c. c ≢ division)

-- The pieces with the separator between them.
abbrev pub join : ℕ → List Text → Text
join division [] = []
join division (p ∷ []) = p
join division (p ∷ q ∷ ps) = p ++ (division ∷ join division (q ∷ ps))

-- `pieces` cut `source` at every separator; one separator at the end leaves no piece.
pub record Cuts (division : ℕ) (source : Text) (pieces : List Text) : Type 0 where
  pub avoid : All (Avoids division) pieces
  pub no_pieces : pieces ≡ [] → source ≡ []
  pub joined : (join division pieces ≡ source) ⊎ (join division pieces ++ (division ∷ []) ≡ source)

-- Where the character is found, it stands, and not before.
record Found (s : Text) (d i : ℕ) : Type 0 where
  before : Avoids d (take i s)
  here : s ≡ take i s ++ (d ∷ drop (i + 1) s)

find_char-some : (s : Text) (d i : ℕ) → find_char s d ≡ some i → Found s d i
unfolding find_char
find_char-some [] d i h = cc
find_char-some (c ∷ s) d i h = elim (Bool-cases (c == d)) [
  | inl same ↦
      let e : i ≡ 0 = ground arith in
      rw e (record { before = tt; here = ap (λ (x : ℕ). x ∷ s) (ground arith) })
  | inr other ↦ elim (Option-cases (find_char s d)) [
    | inl none_left ↦ absurd (ground arith)
    | inr (j, found) ↦
        let e : i ≡ suc j = ground arith in
        let f = find_char-some s d j found in
        let shift : suc j + 1 ≡ suc (j + 1) = omega arith in
        rw e (record {
          before = (λ (p : c ≡ d). ground arith, f.before);
          here = rw shift (ap (λ t. c ∷ t) f.here);
        })
  ]
]

find_char-none : (s : Text) (d : ℕ) → find_char s d ≡ none → Avoids d s
unfolding find_char
find_char-none [] d h = tt
find_char-none (c ∷ s) d h = (λ (p : c ≡ d). ground arith, find_char-none s d (ground arith))

Cuts-cons :
    (division : ℕ) (source : Text) (i : ℕ) (pieces : List Text)
    → Found source division i
    → Cuts division (drop (i + 1) source) pieces
    → Cuts division source (take i source ∷ pieces)
Cuts-cons division source i [] f c = record {
  avoid = (f.before, tt);
  no_pieces = λ e. absurd (cc);
  joined = inr (ap (λ t. take i source ++ (division ∷ t)) (sym (c.no_pieces refl)) ∙ sym f.here);
}
Cuts-cons division source i (p ∷ ps) f c = record {
  avoid = (f.before, c.avoid);
  no_pieces = λ e. absurd (cc);
  joined = elim c.joined [
    | inl e ↦ inl (ap (λ t. take i source ++ (division ∷ t)) e ∙ sym f.here)
    | inr e ↦ inr (
        append_assoc (take i source) (division ∷ join division (p ∷ ps)) (division ∷ [])
        ∙ ap (λ t. take i source ++ (division ∷ t)) e
        ∙ sym f.here)
  ];
}

-- The recursion is on a shorter text.
next_piece :
    (c : ℕ) (s : Text) (dest : List Text) (division i : ℕ) (rest : Option (List Text))
    → find_char (c ∷ s) division ≡ some i
    → ((pieces : List Text) × (rest ≡ some ((dest ++ (take i (c ∷ s) ∷ [])) ++ pieces))
        × Cuts division (drop (i + 1) (c ∷ s)) pieces)
    → (pieces : List Text) × (rest ≡ some (dest ++ pieces)) × Cuts division (c ∷ s) pieces
next_piece c s dest division i rest found (pieces, e, cut) = (
  take i (c ∷ s) ∷ pieces,
  e ∙ ap some (append_assoc dest (take i (c ∷ s) ∷ []) pieces),
  Cuts-cons division (c ∷ s) i pieces (find_char-some (c ∷ s) division i found) cut,
)

step_none :
    (fuel c : ℕ) (s : Text) (dest : List Text) (division : ℕ)
    → find_char (c ∷ s) division ≡ none
    → my_string_split (suc fuel) (c ∷ s) dest division ≡ some (dest ++ ((c ∷ s) ∷ []))
unfolding my_string_split
step_none fuel c s dest division e = rw e refl

step_some :
    (fuel c : ℕ) (s : Text) (dest : List Text) (division i : ℕ)
    → find_char (c ∷ s) division ≡ some i
    → my_string_split (suc fuel) (c ∷ s) dest division
      ≡ my_string_split fuel (drop (i + 1) (c ∷ s)) (dest ++ (take i (c ∷ s) ∷ [])) division
unfolding my_string_split
step_some fuel c s dest division i e = rw e refl

pub split-nil :
    (fuel : ℕ) (dest : List Text) (division : ℕ)
    → my_string_split (suc fuel) [] dest division ≡ some dest
unfolding my_string_split
split-nil fuel dest division = refl

-- The configured path is cut at every separator: the pieces hold none, and joined again they are
-- the path, up to one separator at its end.
pub my_string_split-Cuts :
    (fuel : ℕ) (source : Text) (dest : List Text) (division : ℕ)
    → length source < fuel
    → (pieces : List Text) × (my_string_split fuel source dest division ≡ some (dest ++ pieces))
      × Cuts division source pieces
my_string_split-Cuts zero source dest division h = absurd (omega arith)
my_string_split-Cuts (suc fuel) [] dest division h = (
  [],
  rw (split-nil fuel dest division, append-nil) refl,
  record { avoid = tt; no_pieces = λ _. refl; joined = inl refl },
)
my_string_split-Cuts (suc fuel) (c ∷ s) dest division h =
    elim (Option-cases (find_char (c ∷ s) division)) [
      | inl missing ↦ (
        (c ∷ s) ∷ [],
        step_none fuel c s dest division missing,
        record {
          avoid = (find_char-none (c ∷ s) division missing, tt);
          no_pieces = λ e. absurd (cc);
          joined = inl refl;
        },
      )
      | inr (i, found) ↦ rw (step_some fuel c s dest division i found) (
          next_piece c s dest division i _ found (
            my_string_split-Cuts fuel (drop (i + 1) (c ∷ s)) (dest ++ (take i (c ∷ s) ∷ []))
              division (omega (arith, length-drop (i + 1) (c ∷ s)))))
    ]
