-- ===== src/Names/Versions.antt =====
-- The versions that are read out of a k3s version string (pkg/controller/controller.go).
use k3k.Prelude.{Text, text, ℕ, ◌≡◌, ◌≢◌, refl, false, [], ◌∷◌, ◌++◌, arith, ◌==◌, All}
use k3k.Names.{VersionSource, resolve_k3s_version, before, kubernetes_version}

before_stops : (a : ℕ) (s t : Text) → All (λ c. (c == a) ≡ false) s → before a (s ++ a ∷ t) ≡ s
unfolding before
before_stops a [] t h = ground arith
before_stops a (c ∷ s) t h = ground (arith, before_stops a s t)

before-All : (a : ℕ) (s : Text) → All (λ c. (c == a) ≡ false) s → before a s ≡ s
unfolding before
before-All a [] h = refl
before-All a (c ∷ s) h = ground (arith, before-All a s)

-- A Cluster that names no version of its own runs the host's Kubernetes version: if the recorded
-- host version is not empty and has no `-` and no `+`, as the controller stores it, then the resolved
-- k3s version reads back as that Kubernetes version.
pub resolve-kubernetes_version :
    (cluster : VersionSource)
    → cluster.spec_version ≡ []
    → cluster.status_host_version ≢ []
    → All (λ c. (c == b'-') ≡ false) cluster.status_host_version
    → All (λ c. (c == b'+') ≡ false) cluster.status_host_version
    → kubernetes_version (resolve_k3s_version cluster) ≡ cluster.status_host_version
unfolding kubernetes_version resolve_k3s_version
resolve-kubernetes_version cluster e ne dash plus = ground (
  arith,
  before_stops b'-' cluster.status_host_version (text "k3s1") dash,
  before-All b'+' cluster.status_host_version plus,
)
