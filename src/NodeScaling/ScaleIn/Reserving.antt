-- ===== src/NodeScaling/ScaleIn/Reserving.antt =====
-- What `reserveScaleInCandidates` and `ReconcileScaleOut` do to the waiters.
use quotascale_controller.Prelude.{
  String, none, some, Bool, true, false, ◌≡◌, refl, ap, ◌∙◌, arith, List, [], ◌∷◌, ◌++◌, map, All,
  ◌⊎◌, if◌then◌else◌, Option-cases, inl, inr,
}
use quotascale_controller.Prelude.Int.{ℤ}
use quotascale_controller.Prelude.Text.{str_eq, str_eq_iff}
use quotascale_controller.Effects.{Result, ok, err, Eff, pure, bind_pair}
use quotascale_controller.Failure.{Error}
use quotascale_controller.Inventory.{NodeScalingInventoryNode}
use quotascale_controller.Inventory.Store.{NodeScalingInventoryStore}
use quotascale_controller.Cluster.{Quantities, KubeClient, lookup, has_key}
use quotascale_controller.Cluster.Maps.{lookup-insert}
use quotascale_controller.NodeScaling.{State, ScaleInRequest, ScaleInWaiter}
use quotascale_controller.NodeScaling.Nodes.{node_has_scaling_reservation, reserve_scaling_node}
use quotascale_controller.NodeScaling.Waiters.{start_scale_in_waiter}
use quotascale_controller.NodeScaling.ScaleIn.{reserve_nodes, reserve_unless}

-- A waiter that was there is there unchanged.
abbrev pub KeepsWaiters : {W : Type 0} → State W → State W → Type 0
KeepsWaiters s s' =
    (name : String) (waiter : ScaleInWaiter)
    → lookup name s.scale_in_waiters ≡ some waiter
    → lookup name s'.scale_in_waiters ≡ some waiter

pub lookup-start :
    {W : Type 0} (node other : String) (request : ScaleInRequest) (now : ℤ) (s : State W)
    → lookup other (start_scale_in_waiter node request now s).scale_in_waiters
      ≡ elim (lookup other s.scale_in_waiters) [
        | some waiter ↦ some waiter
        | none ↦
            if str_eq node other
            then some (record { started_at = now; request = request })
            else none
      ]
unfolding start_scale_in_waiter has_key
lookup-start node other request now s = ground (
  arith,
  str_eq_iff node other,
  lookup-insert node other (record { started_at = now; request = request }) s.scale_in_waiters,
)

start-keeps :
    {W : Type 0} (node : String) (request : ScaleInRequest) (now : ℤ) (s : State W)
    → KeepsWaiters s (start_scale_in_waiter node request now s)
start-keeps node request now s name waiter h = lookup-start node name request now s ∙ simp h

start-there :
    {W : Type 0} (node : String) (request : ScaleInRequest) (now : ℤ) (s : State W)
    → has_key node (start_scale_in_waiter node request now s).scale_in_waiters ≡ true
unfolding has_key
start-there node request now s =
    ground (arith, lookup-start node node request now s, str_eq_iff node node)

kept_key :
    {W : Type 0} (s s' : State W) (name : String)
    → KeepsWaiters s s'
    → has_key name s.scale_in_waiters ≡ true
    → has_key name s'.scale_in_waiters ≡ true
unfolding has_key
kept_key s s' name keeps h = elim (Option-cases (lookup name s.scale_in_waiters)) [
  | inl e ↦ ground (arith, e, h)
  | inr (w, e) ↦ ground (arith, keeps name w e)
]

module _ {Q W : Type 0} (q : Quantities Q) (client : KubeClient Q W)
    (store : NodeScalingInventoryStore W) (clock : W → ℤ) (request : ScaleInRequest) where
  abbrev reserves : List NodeScalingInventoryNode → Eff Error (State W) (List String)
  reserves = reserve_nodes q client store clock request

  abbrev HaveWaiters : List NodeScalingInventoryNode → State W → Type 0
  HaveWaiters nodes s = All (λ n. has_key n.name s.scale_in_waiters ≡ true) nodes

  -- The test of the node's reservation has failed, or the call that reserves it.
  abbrev Fails : NodeScalingInventoryNode → Error → W → Type 0
  Fails n e w =
      (node_has_scaling_reservation client n.name w ≡ err e)
      ⊎ ((v : W) × (reserve_scaling_node client n.name v ≡ (err e, w)))

  -- After a success each node has a waiter; after an error each node before the one that failed.
  pub Reserved : List NodeScalingInventoryNode → Result Error (List String) → State W → Type 0
  Reserved nodes (err e) s' =
      (before : List NodeScalingInventoryNode) × (n : NodeScalingInventoryNode) × (after : List
        NodeScalingInventoryNode)
      × (nodes ≡ before ++ n ∷ after)
      × HaveWaiters before s'
      × Fails n e s'.world
  Reserved nodes (ok names) s' = (names ≡ map (λ n. n.name) nodes) × HaveWaiters nodes s'

  -- What is proved of a run from `s`.
  Good : List NodeScalingInventoryNode → State W → Result Error (List String) × State W → Type 0
  Good nodes s out = KeepsWaiters s out.1 × Reserved nodes out.0 out.1

  push-Good :
      (n : NodeScalingInventoryNode) (nodes : List NodeScalingInventoryNode) (s : State W)
      (out : Result Error (List String) × State W)
      → has_key n.name s.scale_in_waiters ≡ true
      → Good nodes s out
      → Good (n ∷ nodes) s (bind_pair out (λ names. pure (n.name ∷ names)))
  unfolding Good Reserved
  push-Good n nodes s (err e, s') h (keeps, (before, m, after, split, waiting, fails)) = (
    keeps,
    (n ∷ before, m, after, ap (◌∷◌ n) split, (kept_key s s' n.name keeps h, waiting), fails),
  )
  push-Good n nodes s (ok names, s') h g =
      (g.0, (ap (λ ns. n.name ∷ ns) g.1.0, (kept_key s s' n.name g.0 h, g.1.1)))

  from-Good :
      (nodes : List NodeScalingInventoryNode) (s s' : State W)
      (out : Result Error (List String) × State W)
      → KeepsWaiters s s'
      → Good nodes s' out
      → Good nodes s out
  unfolding Good
  from-Good nodes s s' out k g = ((λ name waiter h. g.0 name waiter (k name waiter h)), g.1)

  -- From the start of the waiter on.
  wait_for :
      NodeScalingInventoryNode
      → Eff Error (State W) (List String)
      → State W
      → Result Error (List String) × State W
  wait_for n rest s =
      bind_pair (rest (start_scale_in_waiter n.name request (clock s.world) s))
        (λ names. pure (n.name ∷ names))

  wait_for-Good :
      (n : NodeScalingInventoryNode) (nodes : List NodeScalingInventoryNode) (s : State W)
      → ((s' : State W) → Good nodes s' (reserves nodes s'))
      → Good (n ∷ nodes) s (wait_for n (reserves nodes) s)
  unfolding wait_for
  wait_for-Good n nodes s all =
      let s' = start_scale_in_waiter n.name request (clock s.world) s in
      from-Good (n ∷ nodes) s s' _ (start-keeps n.name request (clock s.world) s)
        (push-Good n nodes s' _ (start-there n.name request (clock s.world) s) (all s'))

  reserve-Good :
      (n : NodeScalingInventoryNode) (nodes : List NodeScalingInventoryNode) (s : State W)
      (r : Result Error (Unit {0}) × State W)
      → r.1.scale_in_waiters ≡ s.scale_in_waiters
      → ((e : Error) → r.0 ≡ err e → Fails n e r.1.world)
      → ((s' : State W) → Good nodes s' (reserves nodes s'))
      → Good (n ∷ nodes) s (bind_pair r (λ _. wait_for n (reserves nodes)))
  unfolding Good Reserved
  reserve-Good n nodes s (err e, s') h fails all =
      ((λ name waiter k. ap (lookup name) h ∙ k), ([], n, nodes, refl, tt, fails e refl))
  reserve-Good n nodes s (ok _, s') h fails all =
      from-Good (n ∷ nodes) s s' _ (λ name waiter k. ap (lookup name) h ∙ k)
        (wait_for-Good n nodes s' all)

  unless-waiters :
      (name : String) (already : Bool) (s : State W)
      → (reserve_unless q client store clock request name already s).1.scale_in_waiters
        ≡ s.scale_in_waiters
  unfolding reserve_unless
  unless-waiters name true s = refl
  unless-waiters name false s = refl

  unless-Fails :
      (n : NodeScalingInventoryNode) (already : Bool) (s : State W) (e : Error)
      → (reserve_unless q client store clock request n.name already s).0 ≡ err e
      → Fails n e (reserve_unless q client store clock request n.name already s).1.world
  unfolding reserve_unless
  unless-Fails n true s e h = absurd (cc h)
  unless-Fails n false s e h =
      inr (s.world, ap (λ r. (r, (reserve_scaling_node client n.name s.world).1)) h)

  node-Good :
      (n : NodeScalingInventoryNode) (nodes : List NodeScalingInventoryNode) (s : State W)
      (r : Result Error Bool)
      → node_has_scaling_reservation client n.name s.world ≡ r
      → ((s' : State W) → Good nodes s' (reserves nodes s'))
      → Good (n ∷ nodes) s (
          bind_pair
            (r, s)
            (λ already s.
              bind_pair
                (reserve_unless q client store clock request n.name already s)
                (λ _. wait_for n (reserves nodes))))
  unfolding Good Reserved
  node-Good n nodes s (err e) h all = ((λ name waiter k. k), ([], n, nodes, refl, tt, inl h))
  node-Good n nodes s (ok already) h all =
      reserve-Good n nodes s (reserve_unless q client store clock request n.name already s)
        (unless-waiters n.name already s) (unless-Fails n already s) all

  all-Good : (nodes : List NodeScalingInventoryNode) (s : State W) → Good nodes s (reserves nodes s)
  unfolding reserve_nodes wait_for Good Reserved
  all-Good [] s = ((λ name waiter h. h), (refl, tt))
  all-Good (n ∷ nodes) s =
      node-Good n nodes s (node_has_scaling_reservation client n.name s.world) refl (all-Good nodes)

  -- A waiter that was there keeps its start time and request. After a run that succeeds each of the
  -- nodes has a waiter. A run that fails has failed in the test of a node's reservation or in the call
  -- that reserves it, and then each node before that one has a waiter.
  pub reserve_nodes-Reserved :
      (nodes : List NodeScalingInventoryNode) (s : State W)
      → KeepsWaiters s (reserve_nodes q client store clock request nodes s).1
        × Reserved nodes
            (reserve_nodes q client store clock request nodes s).0
            (reserve_nodes q client store clock request nodes s).1
  unfolding Good
  reserve_nodes-Reserved nodes s = all-Good nodes s
