-- ===== src/Git/Manifest/Aliases.antt =====
-- Aliases in a document: what `setSpecReplicas` puts into one has none.
use quotascale_controller.Prelude.{
  String, Option, none, some, Bool, true, false, ◌≡◌, refl, ◌||◌, arith,
}
use quotascale_controller.Git.Manifest.{
  YamlKind, document_node, sequence_node, mapping_node, scalar_node, alias_node, YamlNode,
  YamlNodes, yaml, end, cons, find_value, change_value, append_pair, scalar, set_number,
  set_replicas, in_content,
}

abbrev is_alias : YamlKind → Bool
is_alias alias_node = true
is_alias document_node = false
is_alias sequence_node = false
is_alias mapping_node = false
is_alias scalar_node = false

unfoldable mutual
  pub has_alias : YamlNode → Bool
  has_alias (yaml kind tag value style content) = is_alias kind || have_alias content

  pub have_alias : YamlNodes → Bool
  have_alias end = false
  have_alias (cons node rest) = has_alias node || have_alias rest

-- A change that brings no alias.
abbrev KeepsOut : (YamlNode → YamlNode) → Type 0
KeepsOut f = (v : YamlNode) → has_alias v ≡ false → has_alias (f v) ≡ false

pub change_value-KeepsOut :
    (key : String) (f : YamlNode → YamlNode) (content : YamlNodes)
    → KeepsOut f
    → have_alias content ≡ false
    → have_alias (change_value key f content) ≡ false
unfolding change_value have_alias
change_value-KeepsOut key f end k h = refl
change_value-KeepsOut key f (cons n end) k h = h
change_value-KeepsOut key f (cons n (cons v rest)) k h =
    ground (arith, h, k v, change_value-KeepsOut key f rest k)

append_pair-have_alias :
    (n v : YamlNode) (content : YamlNodes)
    → has_alias n ≡ false
    → has_alias v ≡ false
    → have_alias content ≡ false
    → have_alias (append_pair n v content) ≡ false
unfolding append_pair have_alias
append_pair-have_alias n v end g h k = ground (arith, g, h)
append_pair-have_alias n v (cons m rest) g h k =
    ground (arith, k, append_pair-have_alias n v rest g h)

set_number-KeepsOut : (number : String) → KeepsOut (set_number number)
unfolding has_alias
set_number-KeepsOut number (yaml kind tag value style content) h = ground (arith, h)

set_replicas-have_alias :
    (number : String) (content : YamlNodes)
    → have_alias content ≡ false
    → have_alias (set_replicas number content) ≡ false
unfolding set_replicas
set_replicas-have_alias number content h = go (find_value "replicas" content) refl
  where
    go :
        (found : Option YamlNode)
        → find_value "replicas" content ≡ found
        → have_alias (set_replicas number content) ≡ false
    go none e =
        rw (e, set_replicas)
          (append_pair-have_alias (scalar "!!str" "replicas") (scalar "!!int" number) content
            (unfold has_alias in refl) (unfold has_alias in refl) h)
    go (some v) e =
        rw (e, set_replicas)
          (change_value-KeepsOut "replicas" (set_number number) content (set_number-KeepsOut number)
            h)

pub edit_spec-KeepsOut : (number : String) → KeepsOut (in_content (set_replicas number))
unfolding has_alias
edit_spec-KeepsOut number (yaml kind tag value style content) h =
    ground (arith, h, set_replicas-have_alias number content)
