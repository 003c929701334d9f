-- ===== src/Quota/Watcher/Pending.antt =====
-- The set of namespaces with a scale-out under way.
use quotascale_controller.Prelude.{
  String, true, false, not, ◌&&◌, ◌||◌, ◌≡◌, arith, List, [], ◌∷◌, any, select,
}
use quotascale_controller.Prelude.Text.{str_eq, str_eq_iff}
use quotascale_controller.Quota.Watcher.{
  QuotaWatcher, begin_pending_scale_out, clear_pending_scale_out,
}

any-select_other :
    (namespace other : String) (ns : List String)
    → any (str_eq other) (select (λ n. not (str_eq namespace n)) ns)
      ≡ (not (str_eq namespace other) && any (str_eq other) ns)
any-select_other namespace other [] = ground arith
any-select_other namespace other (n ∷ ns) = ground (
  arith,
  any-select_other namespace other ns,
  str_eq_iff namespace n,
  str_eq_iff other n,
  str_eq_iff namespace other,
)

module _ {Q : Type 0} (watcher : QuotaWatcher Q) (namespace : String) where
  begins_iff :
      (other : String) (w : QuotaWatcher Q)
      → (begin_pending_scale_out other w).0
        ≡ not (str_eq other "" || any (str_eq other) w.pending_scale_out)
  unfolding begin_pending_scale_out
  begins_iff other w = ground arith

  -- A scale-out of a named namespace that has begun is not begun again before it is cleared, and can
  -- be begun again right after; neither call changes that for another namespace.
  begin_pending_scale_out_lem :
      (other : String)
      → str_eq namespace "" ≡ false
      → str_eq namespace other ≡ false
      → ((begin_pending_scale_out namespace (begin_pending_scale_out namespace watcher).1).0
          ≡ false)
        × ((begin_pending_scale_out namespace (clear_pending_scale_out namespace watcher)).0 ≡ true)
        × ((begin_pending_scale_out other (begin_pending_scale_out namespace watcher).1).0
            ≡ (begin_pending_scale_out other watcher).0)
        × ((begin_pending_scale_out other (clear_pending_scale_out namespace watcher)).0
            ≡ (begin_pending_scale_out other watcher).0)
  unfolding begin_pending_scale_out clear_pending_scale_out
  begin_pending_scale_out_lem other named h = (
    ground (arith, named, str_eq_iff namespace namespace),
    ground (
      arith,
      named,
      str_eq_iff namespace namespace,
      any-select_other namespace namespace watcher.pending_scale_out,
    ),
    ground (arith, h, str_eq_iff namespace other, str_eq_iff other namespace),
    ground (arith, h, named, any-select_other namespace other watcher.pending_scale_out),
  )

-- Once cleared, a namespace is not pending.
pub cleared :
    {Q : Type 0} (watcher : QuotaWatcher Q) (namespace : String)
    → str_eq namespace "" ≡ false
    → any (str_eq namespace) (clear_pending_scale_out namespace watcher).pending_scale_out ≡ false
unfolding clear_pending_scale_out
cleared watcher namespace named = ground (
  arith,
  named,
  str_eq_iff namespace namespace,
  any-select_other namespace namespace watcher.pending_scale_out,
)
