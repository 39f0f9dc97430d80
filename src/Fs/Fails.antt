-- ===== src/Fs/Fails.antt =====
-- How an action that fails ends.
use cry.Error.{CryError, Result, ok, err, panicked, stuck}
use cry.Fs.{World, Action, carry_on, ◌>>=◌}
use cry.Fs.Ends.{Ends}
use cry.Fs.Calm.{Never}

-- The action ends with an error, in a world where `F` holds.
abbrev pub Fails {ℓ} : {A : Type ℓ} → (CryError → World → Type 0) → Result A × World → Type 0
Fails F (ok a, w) = ⊥
Fails F (err e, w) = F e w
Fails F (panicked, w) = ⊥
Fails F (stuck, w) = ⊥

pub carry_on-Fails :
    {A : Type 0} {B : Type 0} (Q : A → World → Type 0) (F : CryError → World → Type 0)
    (f : A → Action B) (r : Result A) (w : World)
    → Ends Q Never (r, w)
    → ((a : A) (w' : World) → Q a w' → Fails F (f a w'))
    → Fails F (carry_on f r w)
carry_on-Fails Q F f (ok a) w h next = next a w h
carry_on-Fails Q F f (err e) w h next = absurd h
carry_on-Fails Q F f panicked w h next = absurd h
carry_on-Fails Q F f stuck w h next = absurd h

-- An action that does not fail, in front of one that does.
pub >>=-Fails :
    {A : Type 0} {B : Type 0} (Q : A → World → Type 0) (F : CryError → World → Type 0)
    (m : Action A) (f : A → Action B) (w : World)
    → Ends Q Never (m w)
    → ((a : A) (w' : World) → Q a w' → Fails F (f a w'))
    → Fails F ((m >>= f) w)
>>=-Fails Q F m f w h next = carry_on-Fails Q F f (m w).0 (m w).1 h next

-- What would follow an action that fails is not done.
pub carry_on-failed :
    {A : Type 0} {B : Type 0} (F : CryError → World → Type 0) (f : A → Action B) (r : Result A)
    (w : World)
    → Fails F (r, w)
    → Fails F (carry_on f r w)
carry_on-failed F f (ok a) w h = absurd h
carry_on-failed F f (err e) w h = h
carry_on-failed F f panicked w h = absurd h
carry_on-failed F f stuck w h = absurd h
