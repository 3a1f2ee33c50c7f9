-- ===== src/Base/Outcome.antt =====
-- The outcome of a Rust call: its value, the message of an `Err`, or a panic. `stuck` is no outcome
-- of the program: a loop of the model ran out of fuel.
use Prim.Native.Nat.{ℕ, ◌-◌}
use Prim.Native.String.{String}
use mathlib.Core.Path.{◌≡◌, refl, ap, ◌∙◌}
use mathlib.Core.Bool.{Bool, true, false, ◌&&◌}
use mathlib.Core.List.{List}
use mathlib.Core.Option.{Option, none, some}
use aarch.Base.Tests.{if◌then◌else◌, ltb, leb}
use aarch.Base.Lists.{length, get_elem?, set, take, drop}

pub data Result {ℓ} (A : Type ℓ) : Type ℓ where
  panic stuck : Result A
  err : String → Result A
  ok : A → Result A

-- `?` and sequencing.
infixl 5 ◌>>=◌ ◌>>◌
abbrev pub ◌>>=◌ {ℓ κ} : {A : Type ℓ} {B : Type κ} → Result A → (A → Result B) → Result B
panic >>= next = panic
stuck >>= next = stuck
err message >>= next = err message
ok value >>= next = next value

abbrev pub ◌>>◌ {ℓ} : {B : Type ℓ} → Result (Unit {0}) → Result B → Result B
first >> second = first >>= λ _. second

-- `assert!`
abbrev pub assert : Bool → Result (Unit {0})
assert true = ok tt
assert false = panic

-- `unwrap()` of a `Result` and of an `Option`.
abbrev pub unwrap {ℓ} : {A : Type ℓ} → Result A → Result A
unwrap (ok a) = ok a
unwrap (err e) = panic
unwrap panic = panic
unwrap stuck = stuck

abbrev pub expect {ℓ} : {A : Type ℓ} → Option A → Result A
expect none = panic
expect (some a) = ok a

-- `v[i]` and `v[i] = x`, which panic out of bounds.
abbrev pub index {ℓ} : {A : Type ℓ} → List A → ℕ → Result A
index xs i = expect (get_elem? xs i)

abbrev pub store {ℓ} : {A : Type ℓ} → List A → ℕ → A → Result (List A)
store xs i x = if ltb i (length xs) then ok (set xs i x) else panic

-- `&v[lo..hi]` and `&v[lo..]`
abbrev pub slice {ℓ} : {A : Type ℓ} → List A → ℕ → ℕ → Result (List A)
slice xs lo hi = if leb lo hi && leb hi (length xs) then ok (take (hi - lo) (drop lo xs)) else panic

abbrev pub slice_from {ℓ} : {A : Type ℓ} → List A → ℕ → Result (List A)
slice_from xs lo = if leb lo (length xs) then ok (drop lo xs) else panic

pub >>=-eq-ok {ℓ κ} :
    {A : Type ℓ} {B : Type κ} {b : B} (call : Result A) (next : A → Result B)
    → (call >>= next) ≡ ok b
    → (value : A) × (call ≡ ok value) × (next value ≡ ok b)
>>=-eq-ok panic next e = cc
>>=-eq-ok stuck next e = cc
>>=-eq-ok (err message) next e = cc
>>=-eq-ok (ok value) next e = (value, refl, e)

pub bind-ok {ℓ κ} :
    {A : Type ℓ} {B : Type κ} {a : A} {r : Result B} (call : Result A) (next : A → Result B)
    → call ≡ ok a
    → next a ≡ r
    → (call >>= next) ≡ r
bind-ok call next e f = ap (λ c. c >>= next) e ∙ f

pub ok-injective {ℓ} : {A : Type ℓ} {a b : A} → ok a ≡ ok b → a ≡ b
ok-injective h = cc

pub bind_assoc {ℓ} :
    {A B C : Type ℓ} (m : Result A) (f : A → Result B) (g : B → Result C)
    → ((m >>= f) >>= g) ≡ (m >>= λ a. f a >>= g)
bind_assoc panic f g = refl
bind_assoc stuck f g = refl
bind_assoc (err message) f g = refl
bind_assoc (ok a) f g = refl

pub bind-cong {ℓ} :
    {A B : Type ℓ} (m : Result A) (f g : A → Result B)
    → ((a : A) → f a ≡ g a)
    → (m >>= f) ≡ (m >>= g)
bind-cong panic f g h = refl
bind-cong stuck f g h = refl
bind-cong (err message) f g h = refl
bind-cong (ok a) f g h = h a

-- What a call that is not stuck gives back, if it returns normally.
abbrev pub Steps {ℓ} : {A : Type ℓ} → (A → Type 0) → Result A → Type 0
Steps P (ok a) = P a
Steps P (err e) = Unit
Steps P panic = Unit
Steps P stuck = ⊥

pub Steps-bind {ℓ κ} :
    {A : Type ℓ} {B : Type κ} (P : A → Type 0) (Q : B → Type 0) (m : Result A) (f : A → Result B)
    → Steps P m
    → ((a : A) → P a → Steps Q (f a))
    → Steps Q (m >>= f)
Steps-bind P Q (ok a) f h k = k a h
Steps-bind P Q (err e) f h k = tt
Steps-bind P Q panic f h k = tt
Steps-bind P Q stuck f h k = absurd h

pub Steps-map {ℓ} :
    {A : Type ℓ} (P Q : A → Type 0) (m : Result A) → Steps P m → ((a : A) → P a → Q a) → Steps Q m
Steps-map P Q (ok a) h k = k a h
Steps-map P Q (err e) h k = tt
Steps-map P Q panic h k = tt
Steps-map P Q stuck h k = absurd h

pub Steps-both :
    {A : Type 0} (P Q : A → Type 0) (m : Result A)
    → Steps P m
    → Steps Q m
    → Steps (λ a. P a × Q a) m
Steps-both P Q (ok a) h k = (h, k)
Steps-both P Q (err e) h k = tt
Steps-both P Q panic h k = tt
Steps-both P Q stuck h k = absurd h

-- A call that is not stuck.
abbrev pub Calm : {A : Type 0} → Result A → Type 0
Calm = Steps (λ _. Unit {0})

pub unwrap-Calm : {A : Type 0} (m : Result A) → Calm m → Calm (unwrap m)
unwrap-Calm (ok a) h = tt
unwrap-Calm (err e) h = tt
unwrap-Calm panic h = tt
unwrap-Calm stuck h = h

pub if-Steps :
    {A : Type 0} (P : A → Type 0) (b : Bool) (m n : Result A)
    → Steps P m
    → Steps P n
    → Steps P (if b then m else n)
if-Steps P true m n p q = p
if-Steps P false m n p q = q

pub if-Calm : {A : Type 0} (b : Bool) (m n : Result A) → Calm m → Calm n → Calm (if b then m else n)
if-Calm true m n p q = p
if-Calm false m n p q = q

pub bind-Calm :
    {A B : Type 0} (m : Result A) (f : A → Result B)
    → Calm m
    → ((a : A) → Calm (f a))
    → Calm (m >>= f)
bind-Calm m f p q = Steps-bind (λ _. Unit {0}) (λ _. Unit {0}) m f p (λ a _. q a)

pub match-Calm :
    {A B : Type 0} (o : Option A) (m : Result B) (f : A → Result B)
    → Calm m
    → ((a : A) → Calm (f a))
    → Calm (elim o [ none ↦ m | some a ↦ f a ])
match-Calm none m f p q = p
match-Calm (some a) m f p q = q a

pub unstuck-Calm : {A : Type 0} (m : Result A) → ¬ (m ≡ stuck) → Calm m
unstuck-Calm (ok a) h = tt
unstuck-Calm (err e) h = tt
unstuck-Calm panic h = tt
unstuck-Calm stuck h = h refl

pub Calm-unstuck : {A : Type 0} (m : Result A) → Calm m → ¬ (m ≡ stuck)
Calm-unstuck (ok a) h e = cc
Calm-unstuck (err m) h e = cc
Calm-unstuck panic h e = cc
Calm-unstuck stuck h e = h
