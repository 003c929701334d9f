-- ===== src/Effects.antt =====
-- Results and effects. A Go function that returns an error is a `Result`; one that also talks to
-- the outside (the cluster, Git, the clock, the controller's own fields) is an `Eff`: it takes the
-- state of all that and returns its result with the state that it leaves, errors included.
use quotascale_controller.Prelude.{◌≡◌, refl, ap, Bool, true, false, ◌⊎◌, inl, inr}

pub data Result (E : Type 0) (A : Type 0) : Type 0 where
  ok : A → Result E A
  err : E → Result E A

abbrev pub Eff : Type 0 → Type 0 → Type 0 → Type 0
Eff E W A = W → Result E A × W

abbrev pub bind_result : {E A B : Type 0} → Result E A → (A → Result E B) → Result E B
bind_result (ok a) f = f a
bind_result (err e) f = err e

abbrev pub bind_pair :
    {E W A B : Type 0} → Result E A × W → (A → W → Result E B × W) → Result E B × W
bind_pair (ok a, w) f = f a w
bind_pair (err e, w) f = (err e, w)

infixl 5 ◌>>=◌ ◌>>◌
abbrev pub ◌>>=◌ : {E W A B : Type 0} → Eff E W A → (A → Eff E W B) → Eff E W B
◌>>=◌ m f w = bind_pair (m w) f

abbrev pub ◌>>◌ : {E W B : Type 0} → Eff E W (Unit {0}) → Eff E W B → Eff E W B
◌>>◌ m k w = bind_pair (m w) (λ _. k)

abbrev pub pure : {E W A : Type 0} → A → Eff E W A
pure a w = (ok a, w)

abbrev pub raise : {E W A : Type 0} → E → Eff E W A
raise e w = (err e, w)

abbrev pub lift : {E W A : Type 0} → Result E A → Eff E W A
lift r w = (r, w)

abbrev pub reads : {E W A : Type 0} → (W → Result E A) → Eff E W A
reads f w = (f w, w)

abbrev pub gets : {E W A : Type 0} → (W → A) → Eff E W A
gets f w = (ok (f w), w)

abbrev pub modify : {E W : Type 0} → (W → W) → Eff E W (Unit {0})
modify f w = (ok tt, f w)

abbrev pub is_ok : {E A : Type 0} → Result E A → Bool
is_ok (ok a) = true
is_ok (err e) = false

-- What an effect keeps holds after any other effect that runs before it, failed or not.
pub then_keeps :
    {E S B V : Type 0} (f : S → V) (k : Eff E S B)
    → ((s : S) → f (k s).1 ≡ f s)
    → (r : Result E (Unit {0}) × S) → f (bind_pair r (λ _. k)).1 ≡ f r.1
then_keeps f k h (ok _, s) = h s
then_keeps f k h (err e, s) = refl

abbrev value_or : {E A : Type 0} → A → Result E A → A
value_or a (ok x) = x
value_or a (err e) = a

pub ok_inj : {E A : Type 0} {a b : A} → ◌≡◌ {A = Result E A} (ok a) (ok b) → a ≡ b
ok_inj {a = a} h = ap (value_or a) h

pub Result-cases :
    {E A : Type 0} (r : Result E A) → ((a : A) × (r ≡ ok a)) ⊎ ((e : E) × (r ≡ err e))
Result-cases (ok a) = inl (a, refl)
Result-cases (err e) = inr (e, refl)

pub bind_result-ok :
    {E A B : Type 0} (r : Result E A) (f : A → Result E B) {b : B}
    → bind_result r f ≡ ok b
    → (a : A) × (r ≡ ok a) × (f a ≡ ok b)
bind_result-ok (ok a) f h = (a, refl, h)
bind_result-ok (err e) f h = absurd (cc h)
