-- ===== src/Git/Manifest.antt =====
-- internal/nodescaling/runtime.go: `setSpecReplicas` and `findMappingValue`, on the node tree of
-- yaml.v3. Of a node's fields it holds those that they read or set. They set fields of nodes that the
-- tree shares with nobody: an alias is a node of its own.
pub mod Aliases
pub mod Editing
pub mod Documents
use quotascale_controller.Prelude.{
  ℕ, String, Option, none, some, Bool, true, false, ◌≡◌, refl, if◌then◌else◌,
}
use quotascale_controller.Prelude.Int.{ℤ, pos}
use quotascale_controller.Prelude.Text.{str_eq}
use quotascale_controller.Prelude.Decimal.{format_int}
use quotascale_controller.Effects.{Result, ok, err}
use quotascale_controller.Failure.{
  Error, manifest_empty, root_not_mapping, spec_missing, spec_not_mapping,
}

pub data YamlKind : Type 0 where
  document_node sequence_node mapping_node scalar_node alias_node : YamlKind

-- Kind, tag, value, style and content. The content of a mapping is keys and values in turn.
mutual
  pub data YamlNode : Type 0 where
    yaml : YamlKind → String → String → ℕ → YamlNodes → YamlNode

  pub data YamlNodes : Type 0 where
    end : YamlNodes
    cons : YamlNode → YamlNodes → YamlNodes

abbrev pub is_mapping : YamlKind → Bool
is_mapping mapping_node = true
is_mapping document_node = false
is_mapping sequence_node = false
is_mapping scalar_node = false
is_mapping alias_node = false

abbrev pub value_of : YamlNode → String
value_of (yaml kind tag value style content) = value

abbrev pub is_mapping_node : YamlNode → Bool
is_mapping_node (yaml kind tag value style content) = is_mapping kind

-- The loop over keys and values in turn: the value of the first key with this text.
unfoldable pub find_value : String → YamlNodes → Option YamlNode
find_value key end = none
find_value key (cons k end) = none
find_value key (cons k (cons v rest)) =
    if str_eq (value_of k) key then some v else find_value key rest

unfoldable pub find_mapping_value : YamlNode → String → Option YamlNode
unfolding find_value
find_mapping_value (yaml kind tag value style content) key =
    if is_mapping kind then find_value key content else none

-- A change of the node that `find_value` finds, in its place.
unfoldable pub change_value : String → (YamlNode → YamlNode) → YamlNodes → YamlNodes
change_value key f end = end
change_value key f (cons k end) = cons k end
change_value key f (cons k (cons v rest)) =
    if str_eq (value_of k) key
    then cons k (cons (f v) rest)
    else cons k (cons v (change_value key f rest))

unfoldable pub append_pair : YamlNode → YamlNode → YamlNodes → YamlNodes
append_pair k v end = cons k (cons v end)
append_pair k v (cons n rest) = cons n (append_pair k v rest)

abbrev pub scalar : String → String → YamlNode
scalar tag value = yaml scalar_node tag value 0 end

-- The kind, tag, value and style of the replicas; the content stays.
abbrev pub set_number : String → YamlNode → YamlNode
set_number number (yaml kind tag value style content) = yaml scalar_node "!!int" number 0 content

-- The content of the specification: the replicas are set, or appended where they are missing.
unfoldable pub set_replicas : String → YamlNodes → YamlNodes
unfolding append_pair change_value find_value
set_replicas number content = elim (find_value "replicas" content) [
  | none ↦ append_pair (scalar "!!str" "replicas") (scalar "!!int" number) content
  | some v ↦ change_value "replicas" (set_number number) content
]

abbrev pub in_content : (YamlNodes → YamlNodes) → YamlNode → YamlNode
in_content f (yaml kind tag value style content) = yaml kind tag value style (f content)

-- The root, given the specification that is found in it.
set_in_spec : String → YamlNode → Option YamlNode → Result Error YamlNode
unfolding set_replicas change_value
set_in_spec number root none = err spec_missing
set_in_spec number root (some spec) =
    if is_mapping_node spec
    then ok (in_content (change_value "spec" (in_content (set_replicas number))) root)
    else err spec_not_mapping

set_in_root : String → YamlNode → Result Error YamlNode
unfolding set_in_spec find_mapping_value
set_in_root number root =
    if is_mapping_node root
    then set_in_spec number root (find_mapping_value root "spec")
    else err root_not_mapping

abbrev pub with_root : YamlNodes → Result Error YamlNode → Result Error YamlNodes
with_root rest (err e) = err e
with_root rest (ok root) = ok (cons root rest)

set_in_document : String → YamlNodes → Result Error YamlNodes
unfolding set_in_root
set_in_document number end = err manifest_empty
set_in_document number (cons root rest) = with_root rest (set_in_root number root)

abbrev pub with_content : YamlNode → Result Error YamlNodes → Result Error YamlNode
with_content doc (err e) = err e
with_content doc (ok content) = ok (in_content (λ _. content) doc)

abbrev pub content_of : YamlNode → YamlNodes
content_of (yaml kind tag value style content) = content

-- The document with the new number, which the code writes into it.
unfoldable pub set_spec_replicas : YamlNode → ℤ → Result Error YamlNode
unfolding set_in_document
set_spec_replicas doc replicas =
    with_content doc (set_in_document (format_int replicas) (content_of doc))
