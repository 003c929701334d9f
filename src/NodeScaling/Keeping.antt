-- ===== src/NodeScaling/Keeping.antt =====
-- Effects that keep a property of the controller's state, by what they are made of. The property
-- looks at the queues and the settings only.
use quotascale_controller.Prelude.{Bool, true, false, List, if◌then◌else◌}
use quotascale_controller.Effects.{Result, ok, err, Eff, ◌>>=◌, ◌>>◌, bind_pair}
use quotascale_controller.Failure.{Error}
use quotascale_controller.NodeScaling.{State, Settings, ScaleOutRequest, ScaleInRequest}

-- A property of the parts that most effects leave alone.
abbrev pub Property : Type 1
Property = Settings → List ScaleOutRequest → List ScaleInRequest → Type 0

module _ {W : Type 0} (P : Property) where
  abbrev pub Holds : State W → Type 0
  Holds s = P s.settings s.scale_out_requests s.scale_in_requests

  abbrev pub Keeps : {A : Type 0} → Eff Error (State W) A → Type 0
  Keeps m = (s : State W) → Holds s → Holds (m s).1

  pub bind_pair-Holds :
      {A B : Type 0} (x : Result Error A × State W) (f : A → Eff Error (State W) B)
      → Holds x.1
      → ((a : A) → Keeps (f a))
      → Holds (bind_pair x f).1
  bind_pair-Holds (ok a, s) f h k = k a s h
  bind_pair-Holds (err e, s) f h k = h

  pub bind-Keeps :
      {A B : Type 0} (m : Eff Error (State W) A) (f : A → Eff Error (State W) B)
      → Keeps m
      → ((a : A) → Keeps (f a))
      → Keeps (m >>= f)
  bind-Keeps m f k l s h = bind_pair-Holds (m s) f (k s h) l

  pub then-Keeps :
      {B : Type 0} (m : Eff Error (State W) (Unit {0})) (n : Eff Error (State W) B)
      → Keeps m
      → Keeps n
      → Keeps (m >> n)
  then-Keeps m n k l s h = bind_pair-Holds (m s) (λ _. n) (k s h) (λ _. l)

  pub if-Keeps :
      {A : Type 0} (b : Bool) (m n : Eff Error (State W) A) (s : State W)
      → Holds (m s).1
      → Holds (n s).1
      → Holds (if b then m s else n s).1
  if-Keeps true m n s h k = h
  if-Keeps false m n s h k = k
