-- ===== src/Prelude/Steps.antt =====
-- Statements that can end the function they stand in: a state, and either the function's result or
-- what the next statement goes on with.
use mathlib.Core.Path.{◌≡◌, ap}
use mathlib.Core.Option.{Option, none, some}

pub data Done (E A : Type 0) : Type 0 where
  stopped : E → Done E A
  went : A → Done E A

abbrev pub Steps : Type 0 → Type 0 → Type 0 → Type 0
Steps S E A = S → Done E A × S

abbrev pub after : {S E A B : Type 0} → (A → Steps S E B) → Done E A × S → Done E B × S
after f (stopped e, s) = (stopped e, s)
after f (went a, s) = f a s

infixl 5 ◌>>=◌
unfoldable pub ◌>>=◌ : {S E A B : Type 0} → Steps S E A → (A → Steps S E B) → Steps S E B
◌>>=◌ m f s = after f (m s)

unfoldable pub pure : {S E A : Type 0} → A → Steps S E A
pure a s = (went a, s)

-- `return e`
unfoldable pub stop : {S E A : Type 0} → E → Steps S E A
stop e s = (stopped e, s)

-- the state changes, and the function goes on
unfoldable pub change : {S E : Type 0} → (S → S) → Steps S E Unit
change f s = (went tt, f s)

-- `if err != nil { return ... }`
unfoldable pub check : {S E X : Type 0} → Option X → (X → E) → Steps S E Unit
check none f s = (went tt, s)
check (some x) f s = (stopped (f x), s)

-- What a statement does is what the block does up to there.
pub step-went :
    {S E A B : Type 0} (m : Steps S E A) (f : A → Steps S E B) (s s' : S) (a : A)
    → m s ≡ (went a, s')
    → (m >>= f) s ≡ f a s'
unfolding ◌>>=◌
step-went m f s s' a h = ap (after f) h

pub step-stopped :
    {S E A B : Type 0} (m : Steps S E A) (f : A → Steps S E B) (s s' : S) (e : E)
    → m s ≡ (stopped e, s')
    → (m >>= f) s ≡ (stopped e, s')
unfolding ◌>>=◌
step-stopped m f s s' e h = ap (after f) h

-- Where a statement ends: it stops in a state with P, or goes on in one with Q.
abbrev pub Ends : {S E A : Type 0} → (S → Type 0) → (S → Type 0) → Done E A × S → Type 0
Ends P Q (stopped e, s) = P s
Ends P Q (went a, s) = Q s

pub Ends-then :
    {S E A B : Type 0} (P Q Q' : S → Type 0) (m : Steps S E A) (f : A → Steps S E B) (s : S)
    → Ends P Q (m s)
    → ((a : A) (s' : S) → Q s' → Ends P Q' (f a s'))
    → Ends P Q' ((m >>= f) s)
unfolding ◌>>=◌
Ends-then {S} {E} {A} P Q Q' m f s h next = from (m s) h
  where
    from : (q : Done E A × S) → Ends P Q q → Ends P Q' (after f q)
    from (stopped e, s') h = h
    from (went a, s') h = next a s' h

pub Ends-map :
    {S E A : Type 0} (P P' Q Q' : S → Type 0) (q : Done E A × S)
    → ((s : S) → P s → P' s)
    → ((s : S) → Q s → Q' s)
    → Ends P Q q
    → Ends P' Q' q
Ends-map P P' Q Q' (stopped e, s) f g h = f s h
Ends-map P P' Q Q' (went a, s) f g h = g s h
