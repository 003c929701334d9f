-- ===== src/Cluster/Maps.antt =====
-- Laws of the string-keyed maps by which labels, annotations, resources and waiters are modelled.
use quotascale_controller.Prelude.{
  String, none, some, true, false, ◌≡◌, refl, arith, [], ◌∷◌, if◌then◌else◌, All, Bool-cases, inl,
  inr, some_inj, none_some,
}
use quotascale_controller.Prelude.Text.{str_eq, str_eq_iff}
use quotascale_controller.Cluster.{Map, lookup, has_key, insert, delete}

module _ {V : Type 0} where
  pub lookup-insert :
      (k j : String) (v : V) (m : Map V)
      → lookup j (insert k v m) ≡ (if str_eq k j then some v else lookup j m)
  unfolding lookup insert
  lookup-insert k j v [] = refl
  lookup-insert k j v ((i, w) ∷ m) =
      ground (arith, str_eq_iff k j, str_eq_iff i k, str_eq_iff i j, lookup-insert k j v m)

  pub lookup-delete :
      (k j : String) (m : Map V) → lookup j (delete k m) ≡ (if str_eq k j then none else lookup j m)
  unfolding lookup delete
  lookup-delete k j [] = ground arith
  lookup-delete k j ((i, w) ∷ m) =
      ground (arith, str_eq_iff k j, str_eq_iff i k, str_eq_iff i j, lookup-delete k j m)

  pub has_key-insert :
      (k j : String) (v : V) (m : Map V)
      → has_key j (insert k v m) ≡ (if str_eq k j then true else has_key j m)
  unfolding has_key
  has_key-insert k j v m = ground (arith, lookup-insert k j v m)

  pub has_key-delete :
      (k j : String) (m : Map V)
      → has_key j (delete k m) ≡ (if str_eq k j then false else has_key j m)
  unfolding has_key
  has_key-delete k j m = ground (arith, lookup-delete k j m)

-- A property of every entry of a map.
module _ {V : Type 0} (P : String × V → Type 0) where
  pub All-insert : (k : String) (v : V) (m : Map V) → P (k, v) → All P m → All P (insert k v m)
  unfolding insert
  All-insert k v [] p h = (p, tt)
  All-insert k v ((j, w) ∷ m) p h = elim (Bool-cases (str_eq j k)) [
    | inl e ↦ rw e (p, h.1)
    | inr e ↦ rw e (h.0, All-insert k v m p h.1)
  ]

  pub All-delete : (k : String) (m : Map V) → All P m → All P (delete k m)
  unfolding delete
  All-delete k [] h = tt
  All-delete k ((j, w) ∷ m) h = elim (Bool-cases (str_eq j k)) [
    | inl e ↦ rw e (All-delete k m h.1)
    | inr e ↦ rw e (h.0, All-delete k m h.1)
  ]

  pub lookup-All : (k : String) (v : V) (m : Map V) → lookup k m ≡ some v → All P m → P (k, v)
  unfolding lookup
  lookup-All k v [] e h = none_some e
  lookup-All k v ((j, w) ∷ m) e h = elim (Bool-cases (str_eq j k)) [
    | inl s ↦ rw (← some_inj (rw s at e), ← (str_eq_iff j k).0 s) h.0
    | inr s ↦ lookup-All k v m (rw s at e) h.1
  ]
