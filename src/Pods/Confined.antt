-- ===== src/Pods/Confined.antt =====
-- Which pods the creation may put on the host cluster (`createPod` of
-- k3k-kubelet/provider/provider.go).
use k3k.Prelude.{
  Text, text, text_eq, is_empty, contains, Bool, true, false, ◌||◌, some, List, [], ◌≡◌,
}
use k3k.Api.{NamespacedName, ObjectMeta}
use k3k.Action.{Keeps, Any}
use k3k.Pods.{Pod, PodSpec}
use k3k.Pods.Kubelet.{HostCluster, Kubelet}
use k3k.Pods.Create.{
  allowed_schedulers, enforced_selector, enforced_priority_class, is_system_class,
  default_scheduler_name,
}
use k3k.Pods.Renewal.{projected_tokens}
use k3k.Pods.Spec.{Binding, binding}
use k3k.Pods.Unprojected.{TokenCalls}

unfoldable pub admits_scheduler : List Text → Text → Bool
unfolding text_eq contains text
admits_scheduler allowed name =
    is_empty name || (text_eq name default_scheduler_name || contains allowed name)

unfoldable pub admits_class : Text → Text → Bool
unfolding text_eq is_system_class
admits_class enforced name = is_empty enforced || (text_eq enforced name || is_system_class name)

-- What the cluster and its policy demand of a pod: no node and no service account of the host, the
-- selector, and a scheduler and a priority class that they allow.
unfoldable pub Admits : HostCluster → Binding → Type 0
unfolding admits_scheduler admits_class enforced_selector allowed_schedulers enforced_priority_class
Admits c b =
    (b.node_name ≡ [])
    × (b.service_account_name ≡ [])
    × (b.automount ≡ some false)
    × (b.node_selector ≡ enforced_selector c c.policy)
    × (admits_scheduler (allowed_schedulers c c.policy) b.scheduler_name ≡ true)
    × (admits_class (enforced_priority_class c c.policy) b.priority_class_name ≡ true)

-- And no token of a service account, but in a volume whose name the creation passes over.
unfoldable pub Confined : HostCluster → PodSpec → Type 0
unfolding Admits projected_tokens binding
Confined c spec = Admits c (binding spec) × (projected_tokens spec.volumes ≡ [])

-- Before the accounts are cleared.
abbrev cleared : Binding → Binding
cleared b = record b { service_account_name = []; automount = some false }

-- The calls of the creation keep `Q`: those that create no pod always, and the creation of a pod when a
-- cluster that was read, one with `Known`, confines it.
pub record CreateCalls (k : Kubelet) (Known : HostCluster → Type 0) (Q : k.State → Type 0)
    : Type 0 where
  pub token_calls : TokenCalls k Q
  pub get_cluster-Keeps : (n : NamespacedName) → Keeps Q Known (k.get_cluster n)
  pub get_virtual_pod-Keeps : (n : NamespacedName) → Keeps Q Any (k.get_virtual_pod n)
  pub patch_secret-Keeps : (a b : ObjectMeta) → Keeps Q Any (k.patch_secret a b)
  pub create_host_pod-Keeps :
      (c : HostCluster) (pod : Pod)
      → Known c
      → Confined c pod.payload.spec
      → Keeps Q Any (k.create_host_pod pod)
