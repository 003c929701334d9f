-- ===== src/Git/Repository/Replicas.antt =====
-- A number of replicas that is written to the manifest is the one that is read.
use quotascale_controller.Prelude.{String, some, ◌≡◌, refl}
use quotascale_controller.Prelude.Int.{ℤ}
use quotascale_controller.Prelude.Decimal.{format_int}
use quotascale_controller.Effects.{Result, ok, err, bind_result-ok}
use quotascale_controller.Failure.{Error}
use quotascale_controller.Git.Manifest.{YamlNode, set_spec_replicas}
use quotascale_controller.Git.Manifest.Editing.{IsNumber}
use quotascale_controller.Git.Manifest.Documents.{spec_entry, set_spec_replicas-HasReplicas}
use quotascale_controller.Git.Manifest.Documents.Plain.{
  IsPlain, IsPlain-HasPairs, set_spec_replicas-IsPlain,
}
use quotascale_controller.Git.Config.{NodeScalingConfig}
use quotascale_controller.Git.Repository.{
  Outside, machine_deployment_absolute_path, read_machine_deployment,
  read_machine_deployment_replicas, edited, write_edited, write_read,
  write_machine_deployment_replicas,
}

-- What the file system and the two YAML libraries promise: a file that was written is read back; and a
-- plain document whose `spec.replicas` is a plain integer, `n` in decimal, is written as a text from
-- which the other library decodes `n`.
pub record StoresManifest {Repo Worktree W : Type 0} (o : Outside Repo Worktree W) (n : ℤ)
    : Type 0 where
  pub read-write :
      (path content : String) (w : W)
      → (o.write_file path content w).0 ≡ ok tt
      → o.read_file path (o.write_file path content w).1 ≡ ok content
  pub decodes :
      (doc v : YamlNode) (content : String)
      → IsPlain doc
      → spec_entry "replicas" doc ≡ some v
      → IsNumber (format_int n) v
      → o.encode doc ≡ ok content
      → o.unmarshal_replicas content ≡ ok (some n)

-- Where the manifest can be read and parsed, it is a plain document.
unfoldable pub HoldsPlain :
    {Repo Worktree W : Type 0} → Outside Repo Worktree W → NodeScalingConfig → W → Type 0
HoldsPlain o config w =
    (text : String) (doc : YamlNode)
    → o.read_file (machine_deployment_absolute_path o config) w ≡ ok text
    → o.unmarshal_node text ≡ ok doc
    → IsPlain doc

module _ {Repo Worktree W : Type 0} (o : Outside Repo Worktree W) (config : NodeScalingConfig)
    (n : ℤ) (stores : StoresManifest o n) where
  -- The text that is written decodes to the number.
  edited_decodes :
      (text content : String)
      → ((doc : YamlNode) → o.unmarshal_node text ≡ ok doc → IsPlain doc)
      → edited o config n text ≡ ok content
      → o.unmarshal_replicas content ≡ ok (some n)
  unfolding edited
  edited_decodes text content plain h =
      let (doc, parsed, rest) = bind_result-ok (o.unmarshal_node text) _ h in
      let (changed, set, encoded) = bind_result-ok (set_spec_replicas doc n) _ rest in
      let p = plain doc parsed in
      let has =
        set_spec_replicas-HasReplicas doc changed n "" "" refl refl (IsPlain-HasPairs doc p) set in
      stores.decodes changed has.0 content (set_spec_replicas-IsPlain doc changed n p set) has.1
        has.2 encoded

  -- Reading after a write that succeeds.
  reads_back :
      (content : String) (w : W)
      → o.unmarshal_replicas content ≡ ok (some n)
      → (o.write_file (machine_deployment_absolute_path o config) content w).0 ≡ ok tt
      → read_machine_deployment_replicas o config
          (o.write_file (machine_deployment_absolute_path o config) content w).1
        ≡ ok n
  unfolding read_machine_deployment_replicas read_machine_deployment
  reads_back content w h k = simp (stores.read-write _ content w k, h)

  edited_reads_back :
      (text : String) (r : Result Error String) (w : W)
      → ((doc : YamlNode) → o.unmarshal_node text ≡ ok doc → IsPlain doc)
      → edited o config n text ≡ r
      → (write_edited o config r w).0 ≡ ok tt
      → read_machine_deployment_replicas o config (write_edited o config r w).1 ≡ ok n
  unfolding write_edited
  edited_reads_back text (err e) w p h k = absurd (cc k)
  edited_reads_back text (ok content) w p h k =
      reads_back content w (edited_decodes text content p h) k

  read_reads_back :
      (r : Result Error String) (w : W)
      → o.read_file (machine_deployment_absolute_path o config) w ≡ r
      → HoldsPlain o config w
      → (write_read o config n r w).0 ≡ ok tt
      → read_machine_deployment_replicas o config (write_read o config n r w).1 ≡ ok n
  unfolding write_read HoldsPlain
  read_reads_back (err e) w h p k = absurd (cc k)
  read_reads_back (ok text) w h p k = edited_reads_back text _ w (λ doc. p text doc h) refl k

  -- Where files are read back as they were written, and the one YAML library decodes the replicas that
  -- the other has encoded in a plain document (one mapping without aliases, the keys of which and of its
  -- `spec` are texts and each there once): after a write of the replicas that succeeds, on a manifest
  -- that is such a document, the replicas that are read are those written.
  pub read-write_machine_deployment_replicas :
      (w : W)
      → HoldsPlain o config w
      → (write_machine_deployment_replicas o config n w).0 ≡ ok tt
      → read_machine_deployment_replicas o config (write_machine_deployment_replicas o config n w).1
        ≡ ok n
  unfolding write_machine_deployment_replicas
  read-write_machine_deployment_replicas w p h = read_reads_back _ w refl p h
