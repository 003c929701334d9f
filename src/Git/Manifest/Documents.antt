-- ===== src/Git/Manifest/Documents.antt =====
-- `setSpecReplicas` on whole documents.
pub mod Plain
use quotascale_controller.Prelude.{
  ℕ, String, Option, none, some, true, false, ◌≡◌, refl, sym, ap, ◌∙◌, arith, Bool-cases, inl, inr,
  if◌then◌else◌, subst,
}
use quotascale_controller.Prelude.Int.{ℤ}
use quotascale_controller.Prelude.Text.{str_eq}
use quotascale_controller.Prelude.Decimal.{format_int}
use quotascale_controller.Effects.{Result, ok, err, ok_inj}
use quotascale_controller.Failure.{Error}
use quotascale_controller.Git.Manifest.{
  YamlKind, YamlNode, YamlNodes, yaml, end, cons, is_mapping, is_mapping_node, find_mapping_value,
  change_value, set_replicas, in_content, with_root, with_content, set_in_spec, set_in_root,
  set_in_document, content_of, set_spec_replicas,
}
use quotascale_controller.Git.Manifest.Editing.{
  IsPaired, mapped, IsNumber, find_value-change_value, set_replicas-IsNumber, set_replicas-other,
}

-- The value of a key of the root.
abbrev pub root_entry : String → YamlNode → Option YamlNode
root_entry key (yaml kind tag value style end) = none
root_entry key (yaml kind tag value style (cons root rest)) = find_mapping_value root key

abbrev pub entry_in : String → Option YamlNode → Option YamlNode
entry_in key none = none
entry_in key (some node) = find_mapping_value node key

-- The value of a key of the specification.
abbrev pub spec_entry : String → YamlNode → Option YamlNode
spec_entry key doc = entry_in key (root_entry "spec" doc)

abbrev pub HasPairs : Option YamlNode → Type 0
HasPairs none = Unit {0}
HasPairs (some node) = IsPaired (content_of node)

abbrev edit_spec : String → YamlNode → YamlNode
edit_spec number = in_content (set_replicas number)

-- What a root is after a successful edit.
abbrev IsEdited : String → YamlNode → YamlNode → Type 0
IsEdited number root root' =
    (spec : YamlNode) × (find_mapping_value root "spec" ≡ some spec)
    × (is_mapping_node spec ≡ true)
    × (root' ≡ in_content (change_value "spec" (edit_spec number)) root)

set_in_spec-IsEdited :
    (number : String) (root root' : YamlNode) (found : Option YamlNode)
    → find_mapping_value root "spec" ≡ found
    → set_in_spec number root found ≡ ok root'
    → IsEdited number root root'
unfolding set_in_spec
set_in_spec-IsEdited number root root' none f h = absurd (cc h)
set_in_spec-IsEdited number root root' (some spec) f h = elim (Bool-cases (is_mapping_node spec)) [
  | inl e ↦ (spec, f, e, sym (ok_inj (rw e at h)))
  | inr e ↦ absurd (cc (rw e at h))
]

set_in_root-IsEdited :
    (number : String) (root root' : YamlNode)
    → set_in_root number root ≡ ok root'
    → IsEdited number root root'
unfolding set_in_root
set_in_root-IsEdited number root root' h = elim (Bool-cases (is_mapping_node root)) [
  | inl e ↦ set_in_spec-IsEdited number root root' _ refl (rw e at h)
  | inr e ↦ absurd (cc (rw e at h))
]

-- A key of an edited mapping.
find_mapping_value-in_content :
    (key other : String) (f : YamlNode → YamlNode) (node : YamlNode)
    → find_mapping_value (in_content (change_value key f) node) other ≡ (
        if str_eq key other
        then mapped f (find_mapping_value node other)
        else find_mapping_value node other)
unfolding find_mapping_value
find_mapping_value-in_content key other f (yaml kind tag value style content) =
    elim (Bool-cases (is_mapping kind)) [
      | inl e ↦ rw e (find_value-change_value key other f content)
      | inr e ↦ rw e (ground arith)
    ]

edited_spec-IsNumber :
    (number : String) (spec : YamlNode)
    → is_mapping_node spec ≡ true
    → IsPaired (content_of spec)
    → (v : YamlNode) × (find_mapping_value (edit_spec number spec) "replicas" ≡ some v)
      × IsNumber number v
unfolding find_mapping_value
edited_spec-IsNumber number (yaml kind tag value style content) e p =
    rw e (set_replicas-IsNumber number content _ refl p)

edited_spec-other :
    (number key : String) (spec : YamlNode)
    → is_mapping_node spec ≡ true
    → IsPaired (content_of spec)
    → str_eq "replicas" key ≡ false
    → find_mapping_value (edit_spec number spec) key ≡ find_mapping_value spec key
unfolding find_mapping_value
edited_spec-other number key (yaml kind tag value style content) e p other =
    rw e (set_replicas-other number key content _ refl p other)

-- The specification of an edited root is the edited specification.
edited_root :
    (number : String) (root root' : YamlNode) (edited : IsEdited number root root')
    → find_mapping_value root' "spec" ≡ some (edit_spec number edited.0)
edited_root number root root' (spec, found, m, e) = rw e (
    find_mapping_value-in_content "spec" "spec" (edit_spec number) root
    ∙ ap (mapped (edit_spec number)) found)

edited_root-other :
    (number top : String) (root root' : YamlNode)
    → IsEdited number root root'
    → str_eq "spec" top ≡ false
    → find_mapping_value root' top ≡ find_mapping_value root top
edited_root-other number top root root' (spec, found, m, e) other =
    rw e (find_mapping_value-in_content "spec" top (edit_spec number) root ∙ (rw other refl))

-- What an edit of a document promises.
abbrev pub HasReplicas : String → String → String → YamlNode → YamlNode → Type 0
HasReplicas number key top doc doc' =
    (v : YamlNode) × (spec_entry "replicas" doc' ≡ some v)
    × IsNumber number v
    × (spec_entry key doc' ≡ spec_entry key doc)
    × (root_entry top doc' ≡ root_entry top doc)

module _ (number key top : String) (other_key : str_eq "replicas" key ≡ false)
    (other_top : str_eq "spec" top ≡ false) (kind : YamlKind) (tag value : String) (style : ℕ)
    (root : YamlNode) (rest : YamlNodes) where
  abbrev document : YamlNode → YamlNode
  document r = yaml kind tag value style (cons r rest)

  edited-HasReplicas :
      (root' : YamlNode)
      → HasPairs (find_mapping_value root "spec")
      → IsEdited number root root'
      → HasReplicas number key top (document root) (document root')
  edited-HasReplicas root' p edited = (
    has.0,
    rw spec_now has.1,
    has.2,
    ap (entry_in key) spec_now
        ∙ edited_spec-other number key edited.0 edited.2 paired other_key
        ∙ sym (ap (entry_in key) edited.1),
    edited_root-other number top root root' edited other_top,
  )
    where
      spec_now : find_mapping_value root' "spec" ≡ some (edit_spec number edited.0)
      spec_now = edited_root number root root' edited

      paired : IsPaired (content_of edited.0)
      paired = subst HasPairs edited.1 p

      has :
          (v : YamlNode) × (find_mapping_value (edit_spec number edited.0) "replicas" ≡ some v)
          × IsNumber number v
      has = edited_spec-IsNumber number edited.0 edited.2 paired

  root_result-HasReplicas :
      (r : Result Error YamlNode) (doc' : YamlNode)
      → set_in_root number root ≡ r
      → HasPairs (find_mapping_value root "spec")
      → with_content (document root) (with_root rest r) ≡ ok doc'
      → HasReplicas number key top (document root) doc'
  root_result-HasReplicas (err e) doc' h p k = absurd (cc k)
  root_result-HasReplicas (ok root') doc' h p k =
      subst (HasReplicas number key top (document root)) (ok_inj k)
        (edited-HasReplicas root' p (set_in_root-IsEdited number root root' h))

-- A document that `setSpecReplicas` accepts has the new number under `replicas` of its specification,
-- set or added, as a plain integer; every other key of the specification and of the root keeps its
-- value. The specification must hold keys and values in pairs, as a mapping does.
pub set_spec_replicas-HasReplicas :
    (doc doc' : YamlNode) (replicas : ℤ) (key top : String)
    → str_eq "replicas" key ≡ false
    → str_eq "spec" top ≡ false
    → HasPairs (root_entry "spec" doc)
    → set_spec_replicas doc replicas ≡ ok doc'
    → HasReplicas (format_int replicas) key top doc doc'
unfolding set_spec_replicas set_in_document
set_spec_replicas-HasReplicas (yaml kind tag value style end) doc' replicas key top a b p h =
    absurd (cc h)
set_spec_replicas-HasReplicas (yaml kind tag value style (cons root rest)) doc' replicas key top a b
      p h =
    root_result-HasReplicas (format_int replicas) key top a b kind tag value style root rest _ doc'
      refl p h
