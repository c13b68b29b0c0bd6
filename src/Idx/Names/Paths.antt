-- ===== src/Idx/Names/Paths.antt =====
-- Paths of components: splitting a path at its separators gives the components back.
use hidefix.Base.{
  ==_refl, ne→==, All, replicate, ℕ, zero, suc, ◌≡◌, ◌≢◌, refl, ap, ◌∙◌, true, some, List, [], ◌∷◌,
  ◌++◌,
}
use hidefix.Idx.Names.{Text, slash, onto_first, split, trim_start, next_back, same_text}

-- A component holds no separator.
abbrev pub IsName : Text → Type 0
IsName s = All (λ c. c ≢ slash) s

-- The components joined by `/`.
abbrev pub join : Text → List Text → Text
join s [] = s
join s (t ∷ ss) = s ++ (slash ∷ join t ss)

split-name : (s : Text) → IsName s → split slash s ≡ s ∷ []
unfolding split onto_first
split-name [] p = refl
split-name (c ∷ s) p = rw (ne→== c slash p.0, split-name s p.1) refl

split-append : (s t : Text) → IsName s → split slash (s ++ (slash ∷ t)) ≡ s ∷ split slash t
unfolding split onto_first
split-append [] t p = refl
split-append (c ∷ s) t p = rw (ne→== c slash p.0, split-append s t p.1) refl

pub split-join :
    (s : Text) (ss : List Text) → IsName s → All IsName ss → split slash (join s ss) ≡ s ∷ ss
split-join s [] p q = split-name s p
split-join s (t ∷ ss) p q = split-append s (join t ss) p ∙ ap (◌∷◌ s) (split-join t ss q.0 q.1)

pub trim_start-slashes :
    (k : ℕ) (c : ℕ) (s : Text) → c ≢ slash → trim_start slash (replicate k slash ++ (c ∷ s)) ≡ c ∷ s
unfolding trim_start
trim_start-slashes zero c s h = rw (ne→== c slash h) refl
trim_start-slashes (suc k) c s h = trim_start-slashes k c s h

pub next_back-append : (ss : List Text) (s : Text) → next_back (ss ++ (s ∷ [])) ≡ some (s, ss)
unfolding next_back
next_back-append [] s = refl
next_back-append (t ∷ []) s = refl
next_back-append (t ∷ u ∷ ss) s = rw (next_back-append (u ∷ ss) s, next_back) refl

pub same_text_refl : (s : Text) → same_text s s ≡ true
same_text_refl [] = refl
same_text_refl (c ∷ s) = rw (==_refl c, same_text_refl s) refl
