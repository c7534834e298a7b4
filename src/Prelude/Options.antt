-- ===== src/Prelude/Options.antt =====
-- Options in sequence.
use mathlib.Core.Path.{◌≡◌, refl}
use mathlib.Core.Option.{Option, none, some}

infixl 5 ◌>>=◌
abbrev pub ◌>>=◌ : {A B : Type 0} → Option A → (A → Option B) → Option B
none >>= k = none
some a >>= k = k a

-- What a sequence that gives a value went through.
pub >>=-some :
    {A B : Type 0} (o : Option A) (k : A → Option B) {out : B}
    → (o >>= k) ≡ some out
    → (value : A) × (o ≡ some value) × (k value ≡ some out)
>>=-some none k went = absurd (cc went)
>>=-some (some value) k went = (value, refl, went)
