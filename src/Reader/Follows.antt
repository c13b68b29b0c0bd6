-- ===== src/Reader/Follows.antt =====
-- A computation with a state against one without: the same value, error or panic, and behind a value
-- a state that is valid.
use hidefix.Base.{Error, Result, ◌>>=◌, ok, err, panic, stuck, ◌≡◌, refl}

module _ {S : Type 0} (valid : S → Type 0) where
  pub data Follows {A : Type 0} : Result (A × S) → Result A → Type 0 where
    gives : (a : A) (s : S) → valid s → Follows (ok (a, s)) (ok a)
    fails : (e : Error) → Follows (err e) (err e)
    panics : Follows panic panic
    sticks : Follows stuck stuck

  -- A state that only goes along.
  pub Follows-along :
      {A B : Type 0} (m : Result A) (g : A → B) (s : S)
      → valid s
      → Follows (m >>= (λ a. ok (g a)) >>= λ b. ok (b, s)) (m >>= λ a. ok (g a))
  Follows-along (ok a) g s v = gives (g a) s v
  Follows-along (err e) g s v = fails e
  Follows-along panic g s v = panics
  Follows-along stuck g s v = sticks

pub bind_assoc :
    {A B D : Type 0} (m : Result A) (f : A → Result B) (g : B → Result D)
    → (m >>= f >>= g) ≡ (m >>= λ a. f a >>= g)
bind_assoc (ok a) f g = refl
bind_assoc (err e) f g = refl
bind_assoc panic f g = refl
bind_assoc stuck f g = refl

module _ {T : Type 0} (w : T → Type 0) where
  -- One computation behind another.
  pub Follows-bind :
      {S A B : Type 0} (v : S → Type 0) {m : Result (A × S)} {n : Result A}
      (f : A × S → Result (B × T)) (g : A → Result B)
      → Follows v m n
      → ((a : A) (s : S) → v s → n ≡ ok a → Follows w (f (a, s)) (g a))
      → Follows w (m >>= f) (n >>= g)
  Follows-bind v f g (gives a s p) k = k a s p refl
  Follows-bind v f g (fails e) k = fails e
  Follows-bind v f g panics k = panics
  Follows-bind v f g sticks k = sticks

  -- A result that no state goes into.
  pub Follows-pure :
      {A B : Type 0} (n : Result A) (f : A → Result (B × T)) (g : A → Result B)
      → ((a : A) → n ≡ ok a → Follows w (f a) (g a))
      → Follows w (n >>= f) (n >>= g)
  Follows-pure (ok a) f g k = k a refl
  Follows-pure (err e) f g k = fails e
  Follows-pure panic f g k = panics
  Follows-pure stuck f g k = sticks

-- Where the state is dropped.
pub Follows-value :
    {S A B : Type 0} (v : S → Type 0) {m : Result (A × S)} {n : Result A} (f : A → Result B)
    → Follows v m n
    → (m >>= λ p. f p.0) ≡ (n >>= f)
Follows-value v f (gives a s k) = refl
Follows-value v f (fails e) = refl
Follows-value v f panics = refl
Follows-value v f sticks = refl

pub Follows-ok :
    {S A : Type 0} (v : S → Type 0) {m : Result (A × S)} {a : A}
    → Follows v m (ok a)
    → (s : S) × (m ≡ ok (a, s)) × v s
Follows-ok v (gives a s k) = (s, refl, k)
