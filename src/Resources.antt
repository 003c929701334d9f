-- ===== src/Resources.antt =====
-- pkg/resources/resources.go and the scalar helpers of pkg/utils/utils.go. A method that updates its
-- receiver and returns it is a function to the new record. Fields are `int64`.
pub mod Bounds
pub mod Differences
use quotascale_controller.Prelude.{
  String, Option, none, some, Bool, true, false, not, ◌&&◌, ◌||◌, if◌then◌else◌,
}
use quotascale_controller.Prelude.Int.{ℤ, pos, ◌+ℤ◌, ltb_ℤ, ◌==ℤ◌, wrap64}
use quotascale_controller.Cluster.{
  Quantities, Scale, milli, mega, ResourceList, ResourceQuota, lookup, has_key,
}

pub record Resources : Type 0 where
  pub cpu : ℤ
  pub memory : ℤ
  pub requests_cpu : ℤ
  pub requests_memory : ℤ
  pub storage : ℤ

-- The zero value of the struct.
abbrev pub empty : Resources
empty = record {
  cpu = pos 0;
  memory = pos 0;
  requests_cpu = pos 0;
  requests_memory = pos 0;
  storage = pos 0;
}

-- `utils.Max` and `utils.Min`.
unfoldable pub max : ℤ → ℤ → ℤ
max x y = if ltb_ℤ y x then x else y

unfoldable pub min : ℤ → ℤ → ℤ
min x y = if ltb_ℤ x y then x else y

unfoldable pub add : Resources → Resources → Resources
add res new = record {
  cpu = wrap64 (res.cpu +ℤ new.cpu);
  memory = wrap64 (res.memory +ℤ new.memory);
  requests_cpu = wrap64 (res.requests_cpu +ℤ new.requests_cpu);
  requests_memory = wrap64 (res.requests_memory +ℤ new.requests_memory);
  storage = wrap64 (res.storage +ℤ new.storage);
}

-- `if new.F != 0 { res.F = new.F }`
abbrev unless_zero : ℤ → ℤ → ℤ
unless_zero new old = if new ==ℤ pos 0 then old else new

-- The argument is a pointer, `none` being nil.
unfoldable pub replace : Resources → Option Resources → Resources
replace res none = res
replace res (some new) = record {
  cpu = unless_zero new.cpu res.cpu;
  memory = unless_zero new.memory res.memory;
  requests_cpu = unless_zero new.requests_cpu res.requests_cpu;
  requests_memory = unless_zero new.requests_memory res.requests_memory;
  storage = unless_zero new.storage res.storage;
}

-- `if res.F > limit.F { res.F = limit.F }`
unfoldable pub at_most : ℤ → ℤ → ℤ
at_most x limit = if ltb_ℤ limit x then limit else x

-- `if new.F > res.F { res.F = new.F }`
unfoldable pub at_least : ℤ → ℤ → ℤ
at_least x new = if ltb_ℤ x new then new else x

-- Storage is left alone by `Limit` and `Max`.
unfoldable pub limit : Resources → Resources → Resources
limit res bound = record res {
  cpu = at_most res.cpu bound.cpu;
  memory = at_most res.memory bound.memory;
  requests_cpu = at_most res.requests_cpu bound.requests_cpu;
  requests_memory = at_most res.requests_memory bound.requests_memory;
}

unfoldable pub max_of : Resources → Resources → Resources
max_of res new = record res {
  cpu = at_least res.cpu new.cpu;
  memory = at_least res.memory new.memory;
  requests_cpu = at_least res.requests_cpu new.requests_cpu;
  requests_memory = at_least res.requests_memory new.requests_memory;
}

unfoldable pub is_empty : Resources → Bool
is_empty res =
    res.cpu ==ℤ pos 0
    && res.memory ==ℤ pos 0
    && res.requests_cpu ==ℤ pos 0
    && res.requests_memory ==ℤ pos 0

unfoldable pub ensure_requests_fit_limits : Resources → Resources
ensure_requests_fit_limits res = record res {
  cpu = if ltb_ℤ res.cpu res.requests_cpu then res.requests_cpu else res.cpu;
  memory = if ltb_ℤ res.memory res.requests_memory then res.requests_memory else res.memory;
}

-- An old quota has the aggregate key beside one of the explicit ones.
abbrev pub has_alias : {Q : Type 0} → ResourceList Q → String → String → String → Bool
has_alias list legacy requests limits =
    has_key legacy list && (has_key requests list || has_key limits list)

abbrev pub grows : Resources → Resources → Bool
grows res current =
    ltb_ℤ current.cpu res.cpu
    || ltb_ℤ current.memory res.memory
    || ltb_ℤ current.requests_cpu res.requests_cpu
    || ltb_ℤ current.requests_memory res.requests_memory

module _ {Q : Type 0} (q : Quantities Q) where
  -- The value under the explicit key, or under the legacy one, or 0.
  unfoldable pub resource_value : ResourceList Q → String → String → Scale → ℤ
  resource_value list name legacy scale = elim (lookup name list) [
    | some v ↦ q.scaled_value v scale
    | none ↦ elim (lookup legacy list) [
      | some v ↦ q.scaled_value v scale
      | none ↦ q.scaled_value q.zero scale
    ]
  ]

  -- What the quota grants now; the `current` of `ForceNoScaleDownWhenScaleUp`.
  unfoldable pub current_of : ResourceQuota Q → Resources
  current_of quota = record {
    cpu = resource_value quota.hard "limits.cpu" "cpu" milli;
    memory = resource_value quota.hard "limits.memory" "memory" mega;
    requests_cpu = resource_value quota.hard "requests.cpu" "cpu" milli;
    requests_memory = resource_value quota.hard "requests.memory" "memory" mega;
    storage = pos 0;
  }

  unfoldable pub differs_from : Resources → ResourceQuota Q → Bool
  unfolding current_of
  differs_from res quota =
      has_alias quota.hard "cpu" "requests.cpu" "limits.cpu"
      || has_alias quota.hard "memory" "requests.memory" "limits.memory"
      || not (res.cpu ==ℤ (current_of quota).cpu)
      || not (res.memory ==ℤ (current_of quota).memory)
      || not (res.requests_cpu ==ℤ (current_of quota).requests_cpu)
      || not (res.requests_memory ==ℤ (current_of quota).requests_memory)

  unfoldable pub is_scale_down : Resources → ResourceQuota Q → Bool
  unfolding current_of
  is_scale_down res quota =
      ltb_ℤ res.cpu (current_of quota).cpu
      || ltb_ℤ res.memory (current_of quota).memory
      || ltb_ℤ res.requests_cpu (current_of quota).requests_cpu
      || ltb_ℤ res.requests_memory (current_of quota).requests_memory

  unfoldable pub force_no_scale_down_when_scale_up : Resources → ResourceQuota Q → Resources
  unfolding current_of
  force_no_scale_down_when_scale_up res quota =
      if grows res (current_of quota) then max_of res (current_of quota) else res
