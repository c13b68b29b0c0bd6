-- ===== src/Idx/Names/Maps.antt =====
-- Maps by text: what `insert` leaves under the keys.
use hidefix.Base.{
  ◌==◌, ==→eq, if◌then◌else◌, Bool-cases, ◌≡◌, refl, sym, ap, ap₂, ◌∙◌, inl, inr, Bool, true, false,
  some, List, [], ◌∷◌,
}
use hidefix.Idx.Names.{Text, same_text, get, insert}
use hidefix.Idx.Names.Paths.{same_text_refl}

same_text→eq : (s t : Text) → same_text s t ≡ true → s ≡ t
same_text→eq [] [] h = refl
same_text→eq [] (d ∷ t) h = cc
same_text→eq (c ∷ s) [] h = cc
same_text→eq (c ∷ s) (d ∷ t) h = elim (Bool-cases (c == d)) [
  | inl e ↦ let h' : same_text s t ≡ true = rw e at h in ap₂ ◌∷◌ (==→eq c d e) (same_text→eq s t h')
  | inr e ↦ let h' : false ≡ true = rw e at h in cc
]

module _ {V : Type 0} where
  get-insert :
      (j k : Text) (v : V) (m : List (Text × V))
      → get j (insert k v m) ≡ (if same_text k j then some v else get j m)
  unfolding get insert
  get-insert j k v [] = refl
  get-insert j k v ((i, w) ∷ m) = elim (Bool-cases (same_text i k)) [
    | inl e ↦ let same = same_text→eq i k e in rw (same, same_text_refl k) (over (same_text k j))
    | inr e ↦
        rw (e, get-insert j k v m)
          (other (same_text i j) (same_text k j) (λ p q.
            let same : i ≡ k = same_text→eq i j p ∙ sym (same_text→eq k j q) in
            let here : same_text i k ≡ true = rw same (same_text_refl k) in cc))
  ]
    where
      over :
          (b : Bool)
          → (if b then some v else get j m)
            ≡ (if b then some v else (if b then some w else get j m))
      over true = refl
      over false = refl

      other :
          (a b : Bool)
          → (a ≡ true → b ≡ true → ⊥)
          → (if a then some w else (if b then some v else get j m))
            ≡ (if b then some v else (if a then some w else get j m))
      other true true n = absurd (n refl refl)
      other true false n = refl
      other false b n = refl

  pub get-insert_self : (k : Text) (v : V) (m : List (Text × V)) → get k (insert k v m) ≡ some v
  get-insert_self k v m = get-insert k k v m ∙ rw (same_text_refl k) refl

  -- A value stays, unless another is put under its key.
  pub get-insert_kept :
      (j k : Text) (v w : V) (m : List (Text × V))
      → get j m ≡ some w
      → (k ≡ j → v ≡ w)
      → get j (insert k v m) ≡ some w
  get-insert_kept j k v w m h same = elim (Bool-cases (same_text k j)) [
    | inl e ↦ get-insert j k v m ∙ rw e (ap some (same (same_text→eq k j e)))
    | inr e ↦ get-insert j k v m ∙ rw e h
  ]
