-- ===== src/Pods/Spec.antt =====
-- What the steps of the creation do to the fields of a pod that bind it to the host cluster.
use k3k.Prelude.{Text, Dict, Bool, true, false, Option, none, some, ◌≡◌, refl, ◌∙◌, if◌then◌else◌}
use k3k.Pods.{PodSpec, Pod, DnsConfig}
use k3k.Pods.Env.{configure_networking, with_dns, harden_core_dns, is_core_dns_pod}
use k3k.Pods.Kubelet.{Provider}
use k3k.Pods.Create.{networked_spec, hardened, translate_pull_secrets}

-- The fields that say where a pod runs and as whom.
pub record Binding : Type 0 where
  pub node_name : Text
  pub node_selector : Dict Text
  pub priority_class_name : Text
  pub scheduler_name : Text
  pub service_account_name : Text
  pub automount : Option Bool

unfoldable pub binding : PodSpec → Binding
binding spec = record {
  node_name = spec.node_name;
  node_selector = spec.node_selector;
  priority_class_name = spec.priority_class_name;
  scheduler_name = spec.scheduler_name;
  service_account_name = spec.service_account_name;
  automount = spec.automount_service_account_token;
}

with_dns-binding :
    (b : Bool) (o : Option DnsConfig) (ip namespace : Text) (spec : PodSpec)
    → (binding (with_dns b o ip namespace spec) ≡ binding spec)
      × ((with_dns b o ip namespace spec).volumes ≡ spec.volumes)
unfolding with_dns binding
with_dns-binding b (some config) ip namespace spec = (refl, refl)
with_dns-binding true none ip namespace spec = (refl, refl)
with_dns-binding false none ip namespace spec = (refl, refl)

if-binding :
    (b : Bool) (x y : PodSpec) → binding x ≡ binding y → binding (if b then x else y) ≡ binding y
if-binding true x y h = h
if-binding false x y h = refl

if-volumes :
    (b : Bool) (x y : PodSpec) → x.volumes ≡ y.volumes → (if b then x else y).volumes ≡ y.volumes
if-volumes true x y h = h
if-volumes false x y h = refl

-- Networking, pull secrets and hardening leave them alone.
pub hardened-binding :
    (sha256 : Text → Text) (p : Provider) (pod : Pod) (spec : PodSpec)
    → binding (hardened sha256 p pod (networked_spec sha256 p pod spec)) ≡ binding spec
unfolding hardened networked_spec configure_networking harden_core_dns binding
    translate_pull_secrets
hardened-binding sha256 p pod spec =
    if-binding (is_core_dns_pod pod) _ (networked_spec sha256 p pod spec) refl
    ∙ (with_dns-binding (is_core_dns_pod pod) _ p.dns_ip pod.meta.namespace _).0

pub hardened-volumes :
    (sha256 : Text → Text) (p : Provider) (pod : Pod) (spec : PodSpec)
    → (hardened sha256 p pod (networked_spec sha256 p pod spec)).volumes ≡ spec.volumes
unfolding hardened networked_spec configure_networking harden_core_dns translate_pull_secrets
hardened-volumes sha256 p pod spec =
    if-volumes (is_core_dns_pod pod) _ (networked_spec sha256 p pod spec) refl
    ∙ (with_dns-binding (is_core_dns_pod pod) _ p.dns_ip pod.meta.namespace _).1
