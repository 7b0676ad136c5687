-- ===== src/Reconciler/Run.antt =====
-- `Reconcile`, `reconcileCluster` and `reconcile` of pkg/controller/cluster/cluster.go.
use k3k.Prelude.{
  Text, text, is_empty, Dict, insert, ℕ, Bool, true, false, not, ◌&&◌, ◌||◌, Option, none, some,
  List, [], ◌++◌, if◌then◌else◌,
}
use k3k.Api.{NamespacedName, ApiError, ApiResult, ok, err, other, FinalizerUtil, ignore_not_found}
use k3k.Action.{Action, Done, pure, raise, raise_if, attempt, beside, modify, current, ◌>>=◌, ◌>>◌}
use k3k.Names.{before}
use k3k.Translate.{get_text}
use k3k.Expose.{
  ClusterMode, unset, shared, virtual_cluster, hcp, Service, ServiceType, load_balancer_type,
  load_balancer_sans,
}
use k3k.Expose.Address.{AddressApi, build_server_config}
use k3k.Status.{
  Phase, provisioning, ConditionApi, ClusterStatus, ReconcileError, Event, update_status,
}
use k3k.Policy.Labels.{policy_name_label_key}
use k3k.Reconciler.{
  ClusterApi, ClusterParts, ClusterObject, Spec, Status, PolicyMode, classify, err_server_not_ready,
}
use k3k.Reconciler.Validation.{validate, has_element}
use k3k.Reconciler.Cidr.{CidrUtil, cluster_cidr_of, service_cidr_of}
use k3k.Reconciler.Roles.{bind_cluster_roles}
use k3k.Reconciler.Objects.{ensure_network_policy, ensure_cluster_service, ensure_ingress, exposed}
use k3k.Reconciler.Finalize.{cluster_finalizer_name, with_finalizers, finalize_cluster}

abbrev pub provider_label_key : Text
provider_label_key = text "provider.cattle.io"

-- What of Go's libraries and of the controller's configuration the reconciliation uses:
-- `equality.Semantic.DeepEqual` of statuses and specs and of labels, among others.
pub record Environment : Type 1 where
  pub sha256 : Text → Text
  pub is_ip : Text → Bool
  pub sorted_set : List Text → List Text
  pub flag_cidr : Text
  pub cidr_util : CidrUtil
  pub conditions : ConditionApi
  pub finalizers : FinalizerUtil
  pub addresses : AddressApi
  pub same_status : Status → Status → Bool
  pub same_spec : Spec → Spec → Bool
  pub same_labels : Dict Text → Dict Text → Bool

-- The result of a run: after how many seconds it is repeated, if at all.
abbrev pub Requeue : Type 0
Requeue = Option ℕ

unfoldable pub set_status : (Status → Status) → ClusterObject → ClusterObject
set_status f c = record c { status = f c.status }

unfoldable pub or_provisioning : Option Phase → Phase
or_provisioning none = provisioning
or_provisioning (some phase) = phase

unfoldable pub with_provider_label : ClusterObject → ClusterObject
unfolding insert text
with_provider_label c = record c {
  meta = record c.meta { labels = insert provider_label_key (text "k3k") c.meta.labels };
}

unfoldable pub is_balanced : ServiceType → Bool
is_balanced t = elim t [ load_balancer_type ↦ true | _ ↦ false ]

unfoldable pub raise_some : {S : Type 0} → Option ApiError → Action S Done
unfolding pure raise
raise_some none = pure tt
raise_some (some e) = raise e

module _ (env : Environment) (api : ClusterApi) (parts : ClusterParts api.State) where
  open api use {State}

  -- The policy that the namespace is bound to.
  unfoldable pub bound_policy : Text → Action State (Option PolicyMode)
  bound_policy name =
      if is_empty name then pure none else (api.get_policy name >>= λ p. pure (some p))

  -- The version of the host is looked up once.
  unfoldable pub host_version : Text → Action State Text
  unfolding before
  host_version known =
      if not (is_empty known)
      then pure known
      else (api.server_version >>= λ v. pure (before b'-' (before b'+' v)))

  -- The Cluster is a variable of the run: what is set before an error stays set.
  abbrev pub Step : Type 0 → Type 0
  Step A = Action (ClusterObject × State) A

  unfoldable pub change_status : (Status → Status) → Step Done
  unfolding set_status
  change_status f = modify (set_status f)

  -- The agents of a shared Cluster use a port of their own where they mirror the nodes of the host.
  unfoldable pub ensure_shared_agent : Bool → Text → Text → Step Done
  unfolding change_status
  ensure_shared_agent true service_ip token = do
    c ← current
    port ← beside (parts.allocate_kubelet_port c.meta.name c.meta.namespace)
    change_status (λ t. record t { kubelet_port = port })
    c' ← current
    beside (parts.ensure_shared_agent c' service_ip token port)
  ensure_shared_agent false service_ip token = do
    c ← current
    beside (parts.ensure_shared_agent c service_ip token 10250)

  -- A hosted control plane has no agents, and the unset mode is the shared one.
  unfoldable pub ensure_agent : ClusterMode → Bool → Text → Text → Step Done
  unfolding ensure_shared_agent
  ensure_agent hcp mirrors service_ip token = pure tt
  ensure_agent virtual_cluster mirrors service_ip token =
      current >>= λ c. beside (parts.ensure_virtual_agent c service_ip token)
  ensure_agent shared mirrors service_ip token = ensure_shared_agent mirrors service_ip token
  ensure_agent unset mirrors service_ip token = ensure_shared_agent mirrors service_ip token

  unfoldable pub ensure_hcp : ClusterMode → Step Done
  ensure_hcp hcp = do
    c ← current
    beside (parts.ensure_hcp_endpoint_slice c)
    beside (parts.ensure_hcp_endpoints c)
  ensure_hcp shared = pure tt
  ensure_hcp virtual_cluster = pure tt
  ensure_hcp unset = pure tt

  -- The policy's name, the checks, and the versions and ranges of the status, up to the token.
  unfoldable pub prepare : Step Text
  unfolding with_provider_label change_status bound_policy validate raise_some host_version
      cluster_cidr_of service_cidr_of get_text
  prepare = do
    modify with_provider_label
    c ← current
    labels ← beside (api.get_namespace_labels c.meta.namespace)
    let policy_name = get_text policy_name_label_key labels
    change_status (λ t. record t { policy_name = policy_name })
    policy ← beside (bound_policy policy_name)
    raise_some (validate env.is_ip c policy)
    version ← beside (host_version c.status.host_version)
    change_status (λ t. record t { host_version = version })
    c' ← current
    token ← beside (parts.token c')
    change_status (λ t. record t { cluster_cidr = cluster_cidr_of c.spec.mode c.spec.cluster_cidr })
    cidr ← beside (service_cidr_of api env.cidr_util c.spec.mode c.spec.service_cidr)
    change_status (λ t. record t { service_cidr = cidr })
    pure token

  -- The addresses of a load balancer are awaited before the servers are configured.
  unfoldable pub expose : Step Service
  unfolding ensure_network_policy ensure_cluster_service load_balancer_sans is_balanced has_element
      text
  expose = do
    c ← current
    beside (ensure_network_policy env.sha256 env.is_ip api env.sorted_set env.flag_cidr c)
    service ← beside (ensure_cluster_service env.sha256 env.is_ip api c)
    raise_if (is_balanced service.type && not (has_element (load_balancer_sans service))) (
        other (
          err_server_not_ready
          ++ text ": waiting for the LoadBalancer address of the cluster service"))
    pure service

  -- The nodes of the host are in the certificate of a hosted control plane.
  unfoldable pub node_sans : ClusterMode → ClusterObject → Action State (List Text)
  node_sans hcp c = parts.host_node_ips c
  node_sans shared c = pure []
  node_sans virtual_cluster c = pure []
  node_sans unset c = pure []

  -- Building a configuration sets the TLS SANs of the status, whether or not it can be written.
  unfoldable pub ensure_server_config : Bool → Text → Service → List Text → Step Done
  unfolding exposed build_server_config change_status
  ensure_server_config is_init token service sans = do
    c ← current
    let built = build_server_config env.addresses env.sha256 (exposed c) is_init service token sans
    change_status (λ t. record t { tls_sans = built.0.status_tls_sans })
    c' ← current
    beside (parts.write_server_config c' is_init built.1)

  -- The first server's configuration, and the others'.
  unfoldable pub ensure_cluster_configs : Text → Service → Step Done
  unfolding node_sans ensure_server_config
  ensure_cluster_configs token service = do
    c ← current
    sans ← beside (node_sans c.spec.mode c)
    ensure_server_config true token service sans
    ensure_server_config false token service sans

  unfoldable pub provision : Text → Service → Step Done
  unfolding ensure_cluster_configs ensure_agent ensure_ingress bind_cluster_roles ensure_hcp
      load_balancer_sans
  provision token service = do
    ensure_cluster_configs token service
    c ← current
    beside (parts.server c (load_balancer_sans service))
    ensure_agent c.spec.mode c.spec.mirror_host_nodes service.cluster_ip token
    c' ← current
    beside (ensure_ingress env.sha256 env.is_ip api env.addresses c')
    beside (parts.ensure_bootstrap_secret c' service.cluster_ip token)
    beside (bind_cluster_roles env.sha256 api c')
    beside (parts.ensure_kubeconfig_secret c' service.cluster_ip)
    ensure_hcp c.spec.mode
    beside (parts.ensure_storage_classes c')

  unfoldable pub reconcile : Step Done
  unfolding prepare expose provision
  reconcile = do token ← prepare; service ← expose; provision token service

  unfoldable pub error_in : ApiResult Done → Option ReconcileError
  unfolding classify
  error_in (ok x) = none
  error_in (err e) = some (classify e)

  abbrev pub observed : ClusterObject → ClusterStatus env.conditions
  observed c = record {
    is_deleting = c.meta.is_deleting;
    phase = or_provisioning c.status.phase;
    conditions = c.status.conditions;
  }

  -- The phase and the condition that the outcome gives, and the events.
  unfoldable pub updated_status : ClusterObject → Option ReconcileError → ClusterObject × List Event
  unfolding update_status or_provisioning
  updated_status c e =
      let (t, events) = update_status env.conditions (observed c) e in
      (
        record c { status = record c.status { phase = some t.phase; conditions = t.conditions } },
        events,
      )

  -- The outcome, and the Cluster after it.
  unfoldable pub reconcile_cluster : ClusterObject → Action State (ApiResult Done × ClusterObject)
  unfolding reconcile error_in updated_status
  reconcile_cluster c s =
      let (r, (c', s')) = reconcile (c, s) in
      let (c'', events) = updated_status c' (error_in r) in
      (ok (r, c''), api.record_events events s')

  unfoldable pub needs_update : ClusterObject → ClusterObject → Bool
  needs_update orig c =
      not (env.same_spec orig.spec c.spec) || not (env.same_labels orig.meta.labels c.meta.labels)

  -- A server that is not ready is asked again in ten seconds.
  unfoldable pub finish : ClusterObject → ClusterObject → ApiResult Done → Action State Requeue
  unfolding classify needs_update
  finish orig c (err e) = if (classify e).is_server_not_ready then pure (some 10) else raise e
  finish orig c (ok x) =
      if needs_update orig c then (api.update_cluster c >>= λ written. pure none) else pure none

  -- The object that is sent is replaced by what the server returns.
  unfoldable pub store_status : ClusterObject → ClusterObject → Action State ClusterObject
  store_status orig c =
      if not (env.same_status orig.status c.status) then api.update_status c else pure c

  unfoldable pub run_reconciliation : ClusterObject → Action State Requeue
  unfolding reconcile_cluster store_status finish
  run_reconciliation c = do
    outcome ← reconcile_cluster c
    stored ← store_status c outcome.1
    finish c stored outcome.0

  unfoldable pub initial_status : Status → Status
  unfolding text
  initial_status t = record t {
    phase = some provisioning;
    conditions = env.conditions.set_status_condition t.conditions (record {
      type = text "Ready";
      status = false;
      reason = text "Provisioning";
      message = text "Cluster is being provisioned";
    });
  }

  -- One step for each run: the status, the finalizer, and then the reconciliation.
  unfoldable pub reconcile_live : Option Phase → ClusterObject → Action State Requeue
  unfolding initial_status set_status with_finalizers run_reconciliation
  reconcile_live none c = api.update_status (set_status initial_status c) >>= λ written. pure none
  reconcile_live (some phase) c =
      let added = env.finalizers.add cluster_finalizer_name c.meta.finalizers in
      if added.1
      then (api.update_cluster (with_finalizers added.0 c) >>= λ written. pure none)
      else run_reconciliation (with_finalizers added.0 c)

  unfoldable pub reconcile_read : ApiResult ClusterObject → Action State Requeue
  unfolding ignore_not_found finalize_cluster reconcile_live
  reconcile_read (err e) = elim (ignore_not_found e) [ none ↦ pure none | some e' ↦ raise e' ]
  reconcile_read (ok c) =
      if c.meta.is_deleting
      then (finalize_cluster env.conditions env.sha256 env.finalizers api parts c >>= λ done.
          pure none)
      else reconcile_live c.status.phase c

  unfoldable pub reconcile_request : NamespacedName → Action State Requeue
  unfolding reconcile_read
  reconcile_request req = attempt (api.get_cluster req) >>= reconcile_read
