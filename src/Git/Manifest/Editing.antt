-- ===== src/Git/Manifest/Editing.antt =====
-- What `setSpecReplicas` changes of a document, and what it leaves.
use quotascale_controller.Prelude.{
  String, Option, none, some, false, ◌≡◌, refl, sym, ap, ◌∙◌, arith, Bool-cases, none_some, inl,
  inr, if◌then◌else◌,
}
use quotascale_controller.Prelude.Text.{str_eq, str_eq_iff}
use quotascale_controller.Git.Manifest.{
  scalar_node, YamlNode, YamlNodes, yaml, end, cons, value_of, find_value, change_value,
  append_pair, scalar, set_number, set_replicas,
}

-- Each key of a mapping has its value.
abbrev pub IsPaired : YamlNodes → Type 0
IsPaired end = Unit {0}
IsPaired (cons k end) = ⊥
IsPaired (cons k (cons v rest)) = IsPaired rest

abbrev pub mapped : (YamlNode → YamlNode) → Option YamlNode → Option YamlNode
mapped f none = none
mapped f (some v) = some (f v)

pub find_value-change_value :
    (key other : String) (f : YamlNode → YamlNode) (content : YamlNodes)
    → find_value other (change_value key f content)
      ≡ (if str_eq key other then mapped f (find_value other content) else find_value other content)
unfolding find_value change_value
find_value-change_value key other f end = ground arith
find_value-change_value key other f (cons k end) = ground arith
find_value-change_value key other f (cons k (cons v rest)) = ground (
  arith,
  find_value-change_value key other f rest,
  str_eq_iff key other,
  str_eq_iff (value_of k) key,
  str_eq_iff (value_of k) other,
)

-- A pair that is appended is found where its key was missing.
find_value-append_pair :
    (key : String) (k v : YamlNode) (content : YamlNodes)
    → IsPaired content
    → find_value key content ≡ none
    → find_value key (append_pair k v content) ≡ (if str_eq (value_of k) key then some v else none)
unfolding find_value append_pair
find_value-append_pair key k v end p h = refl
find_value-append_pair key k v (cons j end) p h = absurd p
find_value-append_pair key k v (cons j (cons u rest)) p h =
    elim (Bool-cases (str_eq (value_of j) key)) [
      | inl e ↦ none_some (sym (rw e at h))
      | inr e ↦ rw e (find_value-append_pair key k v rest p (rw e at h))
    ]

-- It hides nothing.
pub find_value-append_pair_other :
    (key : String) (k v : YamlNode) (content : YamlNodes)
    → IsPaired content
    → str_eq (value_of k) key ≡ false
    → find_value key (append_pair k v content) ≡ find_value key content
unfolding find_value append_pair
find_value-append_pair_other key k v end p h = rw h refl
find_value-append_pair_other key k v (cons j end) p h = absurd p
find_value-append_pair_other key k v (cons j (cons u rest)) p h =
    elim (Bool-cases (str_eq (value_of j) key)) [
      | inl e ↦ rw e refl
      | inr e ↦ rw e (find_value-append_pair_other key k v rest p h)
    ]

-- A plain integer with this text.
abbrev pub IsNumber : String → YamlNode → Type 0
IsNumber number (yaml kind tag value style content) =
    (kind ≡ scalar_node) × (tag ≡ "!!int") × (value ≡ number) × (style ≡ 0)

set_number-IsNumber : (number : String) (v : YamlNode) → IsNumber number (set_number number v)
set_number-IsNumber number (yaml kind tag value style content) = (refl, refl, refl, refl)

pub set_replicas-IsNumber :
    (number : String) (content : YamlNodes) (found : Option YamlNode)
    → find_value "replicas" content ≡ found
    → IsPaired content
    → (v : YamlNode) × (find_value "replicas" (set_replicas number content) ≡ some v)
      × IsNumber number v
unfolding set_replicas
set_replicas-IsNumber number content none h p = (
  scalar "!!int" number,
  rw (h, set_replicas)
      (find_value-append_pair "replicas" (scalar "!!str" "replicas") (scalar "!!int" number) content
        p h),
  (refl, refl, refl, refl),
)
set_replicas-IsNumber number content (some v) h p = (
  set_number number v,
  rw (h, set_replicas)
      (find_value-change_value "replicas" "replicas" (set_number number) content
        ∙ ap (mapped (set_number number)) h),
  set_number-IsNumber number v,
)

pub set_replicas-other :
    (number key : String) (content : YamlNodes) (found : Option YamlNode)
    → find_value "replicas" content ≡ found
    → IsPaired content
    → str_eq "replicas" key ≡ false
    → find_value key (set_replicas number content) ≡ find_value key content
unfolding set_replicas
set_replicas-other number key content none h p other =
    rw (h, set_replicas)
      (find_value-append_pair_other key (scalar "!!str" "replicas") (scalar "!!int" number) content
        p other)
set_replicas-other number key content (some v) h p other =
    rw (h, set_replicas)
      (find_value-change_value "replicas" key (set_number number) content ∙ (rw other refl))
