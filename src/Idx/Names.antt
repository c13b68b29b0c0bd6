-- ===== src/Idx/Names.antt =====
-- Texts as src/idx/index.rs uses them: `split`, `trim_start_matches` and `trim_end_matches` of the standard
-- library, and keys of a `HashMap`. A text is the list of its code points.
pub mod Paths
pub mod Maps
use hidefix.Base.{
  ◌==◌, if◌then◌else◌, ℕ, Bool, true, false, ◌&&◌, Option, none, some, List, [], ◌∷◌, ◌++◌, reverse,
}

abbrev pub Text : Type 0
Text = List ℕ

-- `'/'`
abbrev pub slash : ℕ
slash = 47

-- The character before the first component.
unfoldable pub onto_first : ℕ → List Text → List Text
onto_first c [] = (c ∷ []) ∷ []
onto_first c (s ∷ ss) = (c ∷ s) ∷ ss

-- `split`: the components between the separators, at least one.
unfoldable pub split : (separator : ℕ) → Text → List Text
split separator [] = [] ∷ []
split separator (c ∷ s) =
    let rest = split separator s in if c == separator then [] ∷ rest else onto_first c rest

-- `trim_start_matches` and `trim_end_matches`
unfoldable pub trim_start : ℕ → Text → Text
trim_start m [] = []
trim_start m (c ∷ s) = let rest = trim_start m s in if c == m then rest else c ∷ s

unfoldable pub trim_end : ℕ → Text → Text
trim_end m s = reverse (trim_start m (reverse s))

-- `next_back` of a `Split`: the last component, and those before it.
unfoldable pub next_back : List Text → Option (Text × List Text)
next_back [] = none
next_back (s ∷ []) = some (s, [])
next_back (s ∷ t ∷ ss) = elim (next_back (t ∷ ss)) [
  | none ↦ none
  | some (x, rest) ↦ some (x, s ∷ rest)
]

-- `==` of texts.
abbrev pub same_text : Text → Text → Bool
same_text [] [] = true
same_text [] (c ∷ t) = false
same_text (c ∷ s) [] = false
same_text (c ∷ s) (d ∷ t) = (c == d) && same_text s t

-- `HashMap` by text: the values by key, each key once. `insert` replaces the value of a key.
module _ {V : Type 0} where
  unfoldable pub get : Text → List (Text × V) → Option V
  get k [] = none
  get k ((j, v) ∷ m) = if same_text j k then some v else get k m

  unfoldable pub insert : Text → V → List (Text × V) → List (Text × V)
  insert k v [] = (k, v) ∷ []
  insert k v ((j, w) ∷ m) = if same_text j k then (k, v) ∷ m else (j, w) ∷ insert k v m
