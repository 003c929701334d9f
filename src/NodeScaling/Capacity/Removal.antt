-- ===== src/NodeScaling/Capacity/Removal.antt =====
-- What `EvaluateScaleInCapacity` finds removable.
use quotascale_controller.Prelude.{
  String, none, some, Bool, true, false, ◌||◌, ◌≡◌, refl, sym, ◌∙◌, arith, List, [], ◌∷◌, ◌++◌,
  Bool-cases, Option-cases, inl, inr,
}
use quotascale_controller.Prelude.Int.{
  ℤ, pos, ◌+ℤ◌, ◌-ℤ◌, ltb_ℤ, wrap64, wrap64_of_range, wrap64-InInt64, InInt64, int_laws,
}
use quotascale_controller.Inventory.{NodeScalingInventoryNode}
use quotascale_controller.Cluster.{Map, lookup}
use quotascale_controller.Resources.{Resources}
use quotascale_controller.NodeScaling.Capacity.{remove_candidates, evaluate_candidates}

-- An amount that an `int64` holds and that is not negative.
abbrev pub IsAmount : ℤ → Type 0
IsAmount x = (ltb_ℤ x (pos 0) ≡ false) × InInt64 x

abbrev pub IsRoom : Resources → Type 0
IsRoom r = IsAmount r.cpu × IsAmount r.memory

-- The total over `names` of one field of their capacities.
pub freed : (Resources → ℤ) → Map Resources → List String → ℤ
freed field capacity [] = pos 0
freed field capacity (name ∷ names) = elim (lookup name capacity) [
  | none ↦ freed field capacity names
  | some c ↦ field c +ℤ freed field capacity names
]

add_zero_comm : (a : ℤ) → a +ℤ pos 0 ≡ pos 0 +ℤ a
add_zero_comm a = grind int_laws

add_zero : (a : ℤ) → a ≡ a +ℤ pos 0
add_zero a = grind int_laws

plus_assoc : (a b c : ℤ) → a +ℤ (b +ℤ c) ≡ (a +ℤ b) +ℤ c
plus_assoc a b c = grind int_laws

freed-append_one :
    (field : Resources → ℤ) (capacity : Map Resources) (names : List String) (name : String)
    (c : Resources)
    → lookup name capacity ≡ some c
    → freed field capacity (names ++ name ∷ []) ≡ freed field capacity names +ℤ field c
unfolding freed
freed-append_one field capacity [] name c h = rw (h, freed) (add_zero_comm (field c))
freed-append_one field capacity (n ∷ names) name c h = elim (Option-cases (lookup n capacity)) [
  | inl e ↦ rw (e, freed) (freed-append_one field capacity names name c h)
  | inr (d, e) ↦
      rw (e, freed)
        (rw (freed-append_one field capacity names name c h)
          (plus_assoc (field d) (freed field capacity names) (field c)))
]

difference : (a b : ℤ) → IsAmount a → IsAmount b → wrap64 (a -ℤ b) ≡ a -ℤ b
difference a b h k = wrap64_of_range (a -ℤ b) (grind int_laws)

moved : (a b f : ℤ) → (a -ℤ b) +ℤ (f +ℤ b) ≡ a +ℤ f
moved a b f = grind int_laws

still-IsAmount :
    (a b : ℤ)
    → IsAmount a
    → IsAmount b
    → ltb_ℤ (wrap64 (a -ℤ b)) (pos 0) ≡ false
    → IsAmount (wrap64 (a -ℤ b))
still-IsAmount a b h k l = (l, wrap64-InInt64 (a -ℤ b))

-- What the loop starts with is what it leaves, together with what the removed nodes free.
Balanced : Map Resources → Resources → List String → Resources × List String → Type 0
Balanced capacity r removed out =
    (out.0.cpu +ℤ freed (λ c. c.cpu) capacity out.1 ≡ r.cpu +ℤ freed (λ c. c.cpu) capacity removed)
    × (out.0.memory +ℤ freed (λ c. c.memory) capacity out.1
        ≡ r.memory +ℤ freed (λ c. c.memory) capacity removed)
    × IsRoom out.0

module _ (capacity : Map Resources)
    (known : (name : String) (c : Resources) → lookup name capacity ≡ some c → IsRoom c) where
  module _ (r : Resources) (removed : List String) (n : NodeScalingInventoryNode)
      (nodes : List NodeScalingInventoryNode) where
    unknown_step :
        lookup n.name capacity ≡ none
        → remove_candidates capacity r removed (n ∷ nodes)
          ≡ remove_candidates capacity r removed nodes
    unfolding remove_candidates
    unknown_step e = rw (e, remove_candidates) refl

    module _ (c : Resources) (e : lookup n.name capacity ≡ some c) where
      exceeds : Bool
      exceeds =
          ltb_ℤ (wrap64 (r.cpu -ℤ c.cpu)) (pos 0) || ltb_ℤ (wrap64 (r.memory -ℤ c.memory)) (pos 0)

      full_step : exceeds ≡ true → remove_candidates capacity r removed (n ∷ nodes) ≡ (r, removed)
      unfolding exceeds remove_candidates
      full_step x = rw (e, x, remove_candidates) refl

      taken_from : Resources
      taken_from = record r {
        cpu = wrap64 (r.cpu -ℤ c.cpu);
        memory = wrap64 (r.memory -ℤ c.memory);
      }

      fitting_step :
          exceeds ≡ false
          → remove_candidates capacity r removed (n ∷ nodes)
            ≡ remove_candidates capacity taken_from (removed ++ n.name ∷ []) nodes
      unfolding exceeds taken_from remove_candidates
      fitting_step x = rw (e, x, remove_candidates) refl

      taken_from-IsRoom : IsRoom r → exceeds ≡ false → IsRoom taken_from
      unfolding exceeds taken_from
      taken_from-IsRoom h x = (
        (ground (arith, x), wrap64-InInt64 (r.cpu -ℤ c.cpu)),
        (ground (arith, x), wrap64-InInt64 (r.memory -ℤ c.memory)),
      )

      -- What is left and what is freed change by the same amount.
      taken_from_balance :
          IsRoom r
          → (taken_from.cpu +ℤ freed (λ c. c.cpu) capacity (removed ++ n.name ∷ [])
              ≡ r.cpu +ℤ freed (λ c. c.cpu) capacity removed)
            × (taken_from.memory +ℤ freed (λ c. c.memory) capacity (removed ++ n.name ∷ [])
                ≡ r.memory +ℤ freed (λ c. c.memory) capacity removed)
      unfolding taken_from
      taken_from_balance h = (
        rw
            (
              difference r.cpu c.cpu h.0 (known n.name c e).0,
              freed-append_one (λ c. c.cpu) capacity removed n.name c e,
            )
            (moved r.cpu c.cpu (freed (λ c. c.cpu) capacity removed)),
        rw
            (
              difference r.memory c.memory h.1 (known n.name c e).1,
              freed-append_one (λ c. c.memory) capacity removed n.name c e,
            )
            (moved r.memory c.memory (freed (λ c. c.memory) capacity removed)),
      )

  remove_candidates-Balanced :
      (nodes : List NodeScalingInventoryNode) (r : Resources) (removed : List String)
      → IsRoom r
      → Balanced capacity r removed (remove_candidates capacity r removed nodes)
  unfolding remove_candidates Balanced
  remove_candidates-Balanced [] r removed h = (refl, refl, h)
  remove_candidates-Balanced (n ∷ nodes) r removed h =
      elim (Option-cases (lookup n.name capacity)) [
        | inl e ↦
            rw (unknown_step r removed n nodes e) (remove_candidates-Balanced nodes r removed h)
        | inr (c, e) ↦ elim (Bool-cases (exceeds r removed n nodes c e)) [
          | inl x ↦ rw (full_step r removed n nodes c e x) (refl, refl, h)
          | inr x ↦ rw (fitting_step r removed n nodes c e x) (
              carry (taken_from_balance r removed n nodes c e h) (
                remove_candidates-Balanced nodes (taken_from r removed n nodes c e)
                  (removed ++ n.name ∷ []) (taken_from-IsRoom r removed n nodes c e h x)))
        ]
      ]
    where
      carry :
          {a b c d e f : ℤ} {R : Type 0}
          → (c ≡ e) × (d ≡ f)
          → (a ≡ c) × (b ≡ d) × R
          → (a ≡ e) × (b ≡ f) × R
      carry h k = (k.0 ∙ h.0, k.1 ∙ h.1, k.2)

  -- Where the available and the known node capacities are amounts that an `int64` holds: what
  -- remains after the removable nodes are gone is not negative, in neither resource, and together
  -- with the capacity of the removable nodes it is exactly what was available. Hence the available
  -- resources cover all the removable nodes.
  pub evaluate_candidates_balance :
      (available : Resources) (candidates : List NodeScalingInventoryNode)
      → IsRoom available
      → IsRoom (evaluate_candidates available capacity candidates).projected_available
        × ((evaluate_candidates available capacity candidates).projected_available.cpu
              +ℤ freed
                  (λ c. c.cpu)
                  capacity
                  (evaluate_candidates available capacity candidates).removable_nodes
            ≡ available.cpu)
        × ((evaluate_candidates available capacity candidates).projected_available.memory
              +ℤ freed
                  (λ c. c.memory)
                  capacity
                  (evaluate_candidates available capacity candidates).removable_nodes
            ≡ available.memory)
  unfolding evaluate_candidates Balanced freed
  evaluate_candidates_balance available candidates h =
      let b = remove_candidates-Balanced candidates available [] h in
      (b.2, b.0 ∙ sym (add_zero available.cpu), b.1 ∙ sym (add_zero available.memory))
