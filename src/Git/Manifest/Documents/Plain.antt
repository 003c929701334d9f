-- ===== src/Git/Manifest/Documents/Plain.antt =====
-- Documents that every YAML library reads alike, and that `setSpecReplicas` leaves such.
use quotascale_controller.Prelude.{
  ℕ, String, Option, none, some, false, ◌≡◌, refl, sym, ap, ◌∙◌, arith, subst, Bool-cases, inl, inr,
}
use quotascale_controller.Prelude.Int.{ℤ}
use quotascale_controller.Prelude.Text.{str_eq, str_eq_iff}
use quotascale_controller.Prelude.Decimal.{format_int}
use quotascale_controller.Effects.{Result, ok, err, ok_inj}
use quotascale_controller.Failure.{Error}
use quotascale_controller.Git.Manifest.{
  YamlKind, scalar_node, YamlNode, YamlNodes, yaml, end, cons, value_of, content_of, find_value,
  find_mapping_value, change_value, append_pair, scalar, set_number, set_replicas, in_content,
  set_in_root, set_in_document, with_root, with_content, set_spec_replicas,
}
use quotascale_controller.Git.Manifest.Aliases.{
  have_alias, change_value-KeepsOut, edit_spec-KeepsOut,
}
use quotascale_controller.Git.Manifest.Editing.{
  IsPaired, find_value-change_value, find_value-append_pair_other,
}
use quotascale_controller.Git.Manifest.Documents.{
  HasPairs, root_entry, edit_spec, IsEdited, set_in_root-IsEdited, edited_root, edited_root-other,
}

-- A text, so neither a merge key nor an alias.
abbrev pub IsText : YamlNode → Type 0
IsText (yaml kind tag value style content) = (kind ≡ scalar_node) × (tag ≡ "!!str")

-- Keys and values in turn; the keys are texts, and none is there twice.
abbrev pub IsPlainMapping : YamlNodes → Type 0
IsPlainMapping end = Unit {0}
IsPlainMapping (cons k end) = ⊥
IsPlainMapping (cons k (cons v rest)) =
    IsText k × (find_value (value_of k) rest ≡ none) × IsPlainMapping rest

abbrev pub IsPlainSpec : Option YamlNode → Type 0
IsPlainSpec none = Unit {0}
IsPlainSpec (some spec) = IsPlainMapping (content_of spec)

abbrev pub IsTextOrMissing : Option YamlNode → Type 0
IsTextOrMissing none = Unit {0}
IsTextOrMissing (some v) = IsText v

-- One root without aliases, a plain mapping whose specification is one, with texts for the version and
-- the kind.
abbrev pub IsPlain : YamlNode → Type 0
IsPlain (yaml kind tag value style end) = ⊥
IsPlain (yaml kind tag value style (cons root (cons next rest))) = ⊥
IsPlain (yaml kind tag value style (cons root end)) =
    (have_alias (content_of root) ≡ false)
    × IsPlainMapping (content_of root)
    × IsPlainSpec (find_mapping_value root "spec")
    × IsTextOrMissing (find_mapping_value root "apiVersion")
    × IsTextOrMissing (find_mapping_value root "kind")

IsPlainMapping-IsPaired : (content : YamlNodes) → IsPlainMapping content → IsPaired content
IsPlainMapping-IsPaired end h = tt
IsPlainMapping-IsPaired (cons k end) h = absurd h
IsPlainMapping-IsPaired (cons k (cons v rest)) h = IsPlainMapping-IsPaired rest h.2

change_value-IsPlainMapping :
    (key : String) (f : YamlNode → YamlNode) (content : YamlNodes)
    → IsPlainMapping content
    → IsPlainMapping (change_value key f content)
unfolding change_value
change_value-IsPlainMapping key f end h = tt
change_value-IsPlainMapping key f (cons k end) h = absurd h
change_value-IsPlainMapping key f (cons k (cons v rest)) h =
    elim (Bool-cases (str_eq (value_of k) key)) [
      | inl e ↦ rw e h
      | inr e ↦ rw e (h.0, absent h.1, change_value-IsPlainMapping key f rest h.2)
    ]
  where
    absent :
        find_value (value_of k) rest ≡ none
        → find_value (value_of k) (change_value key f rest) ≡ none
    absent n = ground (arith, find_value-change_value key (value_of k) f rest, n)

append_pair-IsPlainMapping :
    (k v : YamlNode) (content : YamlNodes)
    → IsText k
    → find_value (value_of k) content ≡ none
    → IsPlainMapping content
    → IsPlainMapping (append_pair k v content)
unfolding append_pair find_value
append_pair-IsPlainMapping k v end t n h = (t, refl, tt)
append_pair-IsPlainMapping k v (cons j end) t n h = absurd h
append_pair-IsPlainMapping k v (cons j (cons u rest)) t n h =
    elim (Bool-cases (str_eq (value_of j) (value_of k))) [
      | inl e ↦ absurd (cc (rw e at n))
      | inr e ↦ (
        h.0,
        find_value-append_pair_other (value_of j) k v rest (IsPlainMapping-IsPaired rest h.2) (
              ground (
                arith,
                e,
                str_eq_iff (value_of j) (value_of k),
                str_eq_iff (value_of k) (value_of j),
              ))
            ∙ h.1,
        append_pair-IsPlainMapping k v rest t (rw e at n) h.2,
      )
    ]

set_replicas-IsPlainMapping :
    (number : String) (content : YamlNodes) (found : Option YamlNode)
    → find_value "replicas" content ≡ found
    → IsPlainMapping content
    → IsPlainMapping (set_replicas number content)
unfolding set_replicas
set_replicas-IsPlainMapping number content none h p =
    rw (h, set_replicas)
      (append_pair-IsPlainMapping (scalar "!!str" "replicas") (scalar "!!int" number) content
        (refl, refl) h p)
set_replicas-IsPlainMapping number content (some v) h p =
    rw (h, set_replicas) (change_value-IsPlainMapping "replicas" (set_number number) content p)

content-in_content :
    (f : YamlNodes → YamlNodes) (node : YamlNode)
    → content_of (in_content f node) ≡ f (content_of node)
content-in_content f (yaml kind tag value style content) = refl

edited_content-IsPlainMapping :
    (number : String) (root root' : YamlNode)
    → IsEdited number root root'
    → IsPlainMapping (content_of root)
    → IsPlainMapping (content_of root')
edited_content-IsPlainMapping number root root' edited p =
    subst IsPlainMapping
      (sym
        (ap content_of edited.3 ∙ content-in_content (change_value "spec" (edit_spec number)) root))
      (change_value-IsPlainMapping "spec" (edit_spec number) (content_of root) p)

edited_content-have_alias :
    (number : String) (root root' : YamlNode)
    → IsEdited number root root'
    → have_alias (content_of root) ≡ false
    → have_alias (content_of root') ≡ false
edited_content-have_alias number root root' edited p =
    subst (λ c. have_alias c ≡ false)
      (sym
        (ap content_of edited.3 ∙ content-in_content (change_value "spec" (edit_spec number)) root))
      (change_value-KeepsOut "spec" (edit_spec number) (content_of root) (edit_spec-KeepsOut number)
        p)

edited_spec-IsPlainSpec :
    (number : String) (root root' : YamlNode)
    → IsEdited number root root'
    → IsPlainSpec (find_mapping_value root "spec")
    → IsPlainSpec (find_mapping_value root' "spec")
edited_spec-IsPlainSpec number root root' edited p =
    subst IsPlainSpec (sym (edited_root number root root' edited)) (
      subst IsPlainMapping (sym (content-in_content (set_replicas number) edited.0)) (
        set_replicas-IsPlainMapping number (content_of edited.0) _ refl
          (subst IsPlainSpec edited.1 p)))

module _ (number : String) (kind : YamlKind) (tag value : String) (style : ℕ)
    (root : YamlNode) where
  abbrev whole : YamlNode → YamlNode
  whole r = yaml kind tag value style (cons r end)

  edited-IsPlain :
      (root' : YamlNode) → IsEdited number root root' → IsPlain (whole root) → IsPlain (whole root')
  edited-IsPlain root' edited p = (
    edited_content-have_alias number root root' edited p.0,
    edited_content-IsPlainMapping number root root' edited p.1,
    edited_spec-IsPlainSpec number root root' edited p.2,
    subst IsTextOrMissing (sym (edited_root-other number "apiVersion" root root' edited refl)) p.3,
    subst IsTextOrMissing (sym (edited_root-other number "kind" root root' edited refl)) p.4,
  )

  result-IsPlain :
      (r : Result Error YamlNode) (doc' : YamlNode)
      → set_in_root number root ≡ r
      → IsPlain (whole root)
      → with_content (whole root) (with_root end r) ≡ ok doc'
      → IsPlain doc'
  result-IsPlain (err e) doc' h p k = absurd (cc k)
  result-IsPlain (ok root') doc' h p k =
      subst IsPlain (ok_inj k) (edited-IsPlain root' (set_in_root-IsEdited number root root' h) p)

pub set_spec_replicas-IsPlain :
    (doc doc' : YamlNode) (replicas : ℤ)
    → IsPlain doc
    → set_spec_replicas doc replicas ≡ ok doc'
    → IsPlain doc'
unfolding set_spec_replicas set_in_document
set_spec_replicas-IsPlain (yaml kind tag value style end) doc' replicas p h = absurd p
set_spec_replicas-IsPlain (yaml kind tag value style (cons root (cons next rest))) doc' replicas p
      h =
    absurd p
set_spec_replicas-IsPlain (yaml kind tag value style (cons root end)) doc' replicas p h =
    result-IsPlain (format_int replicas) kind tag value style root _ doc' refl p h

-- The specification of a plain document has its keys and values in pairs.
spec-HasPairs : (spec : Option YamlNode) → IsPlainSpec spec → HasPairs spec
spec-HasPairs none p = tt
spec-HasPairs (some spec) p = IsPlainMapping-IsPaired (content_of spec) p

pub IsPlain-HasPairs : (doc : YamlNode) → IsPlain doc → HasPairs (root_entry "spec" doc)
IsPlain-HasPairs (yaml kind tag value style end) p = absurd p
IsPlain-HasPairs (yaml kind tag value style (cons root (cons next rest))) p = absurd p
IsPlain-HasPairs (yaml kind tag value style (cons root end)) p = spec-HasPairs _ p.2
