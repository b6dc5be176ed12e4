-- ===== src/Prelude/Go.antt =====
-- A run of Go code: it returns, it panics (an index or a slice out of range), or the fuel of a
-- loop of the model ran out, which is no Go behaviour.
use nl.Prelude.Tests.{leb, if◌then◌else◌}
use nl.Prelude.Lists.{length, get_elem?, take, drop, get_elem?-some}
use nl.Prelude.Bytes.{Bytes}
use Prim.Native.Nat.{ℕ, ◌-◌, ◌<◌}
use mathlib.Core.Path.{◌≡◌, refl}
use mathlib.Core.Bool.{Bool, true, false, ◌&&◌}
use mathlib.Core.Option.{Option, none, some}

pub data Go {ℓ} (A : Type ℓ) : Type ℓ where
  ret : A → Go A
  panic : Go A
  stuck : Go A

infixl 5 ◌>>=◌
abbrev pub ◌>>=◌ {ℓ κ} : {A : Type ℓ} {B : Type κ} → Go A → (A → Go B) → Go B
ret a >>= f = f a
panic >>= f = panic
stuck >>= f = stuck

abbrev pub from_option {ℓ} : {A : Type ℓ} → Option A → Go A
from_option none = panic
from_option (some a) = ret a

-- `data[i]`
abbrev pub index : Bytes → ℕ → Go ℕ
index bs i = from_option (get_elem? bs i)

-- `data[lo:hi]`; a slice past the length is taken for a panic, though Go allows it up to the
-- capacity.
abbrev pub slice : Bytes → ℕ → ℕ → Go Bytes
slice bs lo hi =
    if leb lo hi && leb hi (length bs) then ret (take (hi - lo) (drop lo bs)) else panic

pub index-ret : (bs : Bytes) (i : ℕ) → i < length bs → (b : ℕ) × (index bs i ≡ ret b)
index-ret bs i h = let (b, e) = get_elem?-some bs i h in (b, rw e)

-- The code returns, and its result has the property.
abbrev pub Returns {ℓ} : {A : Type ℓ} → Go A → (A → Type 0) → Type 0
Returns (ret a) P = P a
Returns panic P = ⊥
Returns stuck P = ⊥

-- A run is followed by another.
pub Returns-bind {ℓ κ} :
    {A : Type ℓ} {B : Type κ} (m : Go A) (f : A → Go B) (P : A → Type 0) (Q : B → Type 0)
    → Returns m P
    → ((a : A) → P a → Returns (f a) Q)
    → Returns (m >>= f) Q
Returns-bind (ret a) f P Q h k = k a h
Returns-bind panic f P Q h k = absurd h
Returns-bind stuck f P Q h k = absurd h

pub Returns-weaken {ℓ} :
    {A : Type ℓ} (m : Go A) (P Q : A → Type 0) → Returns m P → ((a : A) → P a → Q a) → Returns m Q
Returns-weaken (ret a) P Q h k = k a h
Returns-weaken panic P Q h k = absurd h
Returns-weaken stuck P Q h k = absurd h

pub index-Returns : (bs : Bytes) (i : ℕ) → i < length bs → Returns (index bs i) (λ b. Unit {0})
index-Returns bs i h = let (b, e) = index-ret bs i h in rw e tt

-- A run that may report a failure, followed by another on what it found.
infixl 5 ◌>>?◌
abbrev pub ◌>>?◌ {ℓ κ} :
    {A : Type ℓ} {B : Type κ} → Go (Option A) → (A → Go (Option B)) → Go (Option B)
m >>? f = m >>= λ o. elim o [ none ↦ ret none | some a ↦ f a ]

pub Returns-if {ℓ} :
    {A : Type ℓ} (test : Bool) (m n : Go A) (P : A → Type 0)
    → (test ≡ true → Returns m P)
    → (test ≡ false → Returns n P)
    → Returns (if test then m else n) P
Returns-if true m n P h k = h refl
Returns-if false m n P h k = k refl

-- What holds of a value that was found.
abbrev pub Found {ℓ} : {A : Type ℓ} → (A → Type 0) → Option A → Type 0
Found P none = Unit {0}
Found P (some a) = P a

pub Returns-try {ℓ κ} :
    {A : Type ℓ} {B : Type κ} (m : Go (Option A)) (f : A → Go (Option B)) (P : A → Type 0)
    (Q : B → Type 0)
    → Returns m (Found P)
    → ((a : A) → P a → Returns (f a) (Found Q))
    → Returns (m >>? f) (Found Q)
Returns-try (ret none) f P Q h k = tt
Returns-try (ret (some a)) f P Q h k = k a h
Returns-try panic f P Q h k = absurd h
Returns-try stuck f P Q h k = absurd h

-- A run mapped at its end is another run, when each step is.
module _ {ℓ κ μ} {A : Type ℓ} {B : Type κ} {C : Type μ} where
  pub bind-bind :
      (m : Go A) (f : A → Go B) (g : A → Go C) (h : B → Go C)
      → ((a : A) → (f a >>= h) ≡ g a)
      → (m >>= f >>= h) ≡ (m >>= g)
  bind-bind (ret a) f g h k = k a
  bind-bind panic f g h k = refl
  bind-bind stuck f g h k = refl

  pub try-bind :
      (m : Go (Option A)) (f : A → Go (Option B)) (g : A → Go (Option C))
      (h : Option B → Go (Option C))
      → h none ≡ ret none
      → ((a : A) → (f a >>= h) ≡ g a)
      → ((m >>? f) >>= h) ≡ (m >>? g)
  try-bind (ret none) f g h z k = z
  try-bind (ret (some a)) f g h z k = k a
  try-bind panic f g h z k = refl
  try-bind stuck f g h z k = refl

module _ {κ μ} {B : Type κ} {C : Type μ} where
  pub if-bind :
      (test : Bool) (m n : Go B) (p q : Go C) (h : B → Go C)
      → (test ≡ true → (m >>= h) ≡ p)
      → (test ≡ false → (n >>= h) ≡ q)
      → ((if test then m else n) >>= h) ≡ (if test then p else q)
  if-bind true m n p q h a b = a refl
  if-bind false m n p q h a b = b refl
