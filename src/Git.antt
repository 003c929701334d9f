-- ===== src/Git.antt =====
-- internal/nodescaling/runtime.go: the clone of the Git repository that holds the MachineDeployment.
-- Manifest: the YAML tree and what is written to it; Config: where the repository is; Repository: the
-- clone and its remote, over go-git and the file system as parameters.
pub mod Manifest
pub mod Config
pub mod Repository
