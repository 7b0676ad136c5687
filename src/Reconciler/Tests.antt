-- ===== src/Reconciler/Tests.antt =====
-- One Cluster on servers that keep what is written.
use k3k.Prelude.{
  Text, text, text_eq, contains, Bool, true, false, not, none, List, [], ◌∷◌, ◌≡◌, refl, ◌⊎◌,
  if◌then◌else◌, ap, sym, ◌∙◌,
}
use k3k.Api.{NamespacedName, ApiError, ok, err, not_found}
use k3k.Api.Memory.{list_util, list_util_laws}
use k3k.Action.{attempt, pure, ◌>>=◌}
use k3k.Ports.{PortAllocator, range_key, allocated_ports_key, allocate_port, deallocate_port}
use k3k.Ports.Memory.{two_ports, two_ports_laws}
use k3k.Pods.Tokens.{no_meta}
use k3k.Expose.{shared}
use k3k.Expose.Address.{AddressApi}
use k3k.Status.{Condition, ConditionApi}
use k3k.Reconciler.{ClusterApi, ClusterParts, ClusterObject, Subject, RoleBinding}
use k3k.Reconciler.Finalize.{
  with_finalizers, as_terminating, clean_up, remove_finalizer, finalize_cluster,
}
use k3k.Reconciler.Unbound.{FinalLaws, or_done}
use k3k.Reconciler.Cleaned.{IsCleaned, finalize_cluster-IsCleaned}
use k3k.Reconciler.Run.{
  Environment, reconcile_request, reconcile_read, reconcile_live, set_status, initial_status,
}
use k3k.Reconciler.Outcome.{
  ServerLaws, Needs, runs, run_well, Reconciles, runs-Reconciles, steps_left, lacks_phase,
}

abbrev cluster : ClusterObject
cluster = record {
  meta = record no_meta { name = text "c"; namespace = text "ns" };
  spec = record {
    mode = shared;
    cluster_cidr = [];
    service_cidr = [];
    cluster_dns = [];
    mirror_host_nodes = true;
    custom_cas = none;
    expose = none;
    tls_sans = [];
    storage_classes = none;
  };
  status = record {
    phase = none;
    conditions = [];
    policy_name = [];
    host_version = [];
    cluster_cidr = [];
    service_cidr = [];
    tls_sans = [];
    kubelet_port = 7;
    policy_storage_classes = none;
  };
}

record Server : Type 0 where
  object : ClusterObject
  bound : Text → List Subject
  lease : Bool
  ports : PortAllocator two_ports

-- The status is written apart from the rest.
abbrev with_rest : ClusterObject → ClusterObject → ClusterObject
with_rest c old = record c {
  status = old.status;
  meta = record c.meta { is_deleting = old.meta.is_deleting };
}

abbrev with_status : ClusterObject → ClusterObject → ClusterObject
with_status c old = record old { status = c.status }

abbrev bind_to : RoleBinding → Server → Server
bind_to b s = record s { bound = λ r. if text_eq b.name r then b.subjects else s.bound r }

abbrev servers : ClusterApi
servers = record {
  State = Server;
  get_cluster = λ n s. (ok s.object, s);
  update_cluster = λ c s. (ok (with_rest c s.object), record s { object = with_rest c s.object });
  update_status =
      λ c s. (ok (with_status c s.object), record s { object = with_status c s.object });
  get_namespace_labels = λ n s. (ok [], s);
  get_policy = λ n s. (err not_found, s);
  server_version = λ s. (ok (text "v1.33.1+k3s1"), s);
  list_nodes = λ s. (ok [], s);
  delete_network_policy = λ n s. (ok tt, s);
  write_network_policy = λ p f s. (f p, s);
  write_service = λ p f s. (f p, s);
  delete_ingress = λ i s. (ok tt, s);
  write_ingress = λ i f s. (f i, s);
  get_role_binding = λ role s. (ok (record { name = role; subjects = s.bound role }), s);
  update_role_binding = λ b s. (ok tt, bind_to b s);
  delete_lease = λ n s. (ok tt, record s { lease = false });
  get_service_cidrs = λ n s. (err not_found, s);
  create_failing_service = λ s. (ok tt, s);
  list_api_server_args = λ s. (ok [], s);
  own_network_policy = λ c p. ok p;
  own_service = λ c p. ok p;
  own_ingress = λ c p. ok p;
  record_events = λ es s. s;
}

abbrev parts : ClusterParts Server
parts = record {
  token = λ c s. (ok (text "t"), s);
  host_node_ips = λ c s. (ok [], s);
  write_server_config = λ c is_init config s. (ok tt, s);
  server = λ c sans s. (ok tt, s);
  allocate_kubelet_port =
      λ n m s. let r = allocate_port two_ports n m s.ports in (r.0, record s { ports = r.1 });
  deallocate_kubelet_port = λ n m port s.
      let r = deallocate_port two_ports n m port s.ports in (or_done r.0, record s { ports = r.1 });
  ensure_virtual_agent = λ c ip t s. (ok tt, s);
  ensure_shared_agent = λ c ip t port s. (ok tt, s);
  ensure_bootstrap_secret = λ c ip t s. (ok tt, s);
  ensure_kubeconfig_secret = λ c ip s. (ok tt, s);
  ensure_hcp_endpoint_slice = λ c s. (ok tt, s);
  ensure_hcp_endpoints = λ c s. (ok tt, s);
  ensure_storage_classes = λ c s. (ok tt, s);
}

abbrev conditions : ConditionApi
conditions = record { set_status_condition = λ cs c. c ∷ cs; is_present_and_equal = present }
  where
    present : List Condition → Text → Bool → Bool
    present [] t b = false
    present (d ∷ ds) t b =
        let rest = present ds t b in
        if text_eq d.type t then (if b then d.status else not d.status) else rest

abbrev addresses : AddressApi
addresses = record {
  get_ingress_hosts = λ n. err not_found;
  get_service = λ n. err not_found;
  join_host_port = λ host port. host;
  StringSet = List Text;
  new_set = λ ts. ts;
  insert_all = λ ts s. s;
  list = λ s. s;
}

abbrev env : Environment
env = record {
  sha256 = λ t. t;
  is_ip = λ t. false;
  sorted_set = λ xs. xs;
  flag_cidr = text "10.42.0.0/16";
  cidr_util = record { parse_cidr = λ t. ok t; after_text = λ a b. none };
  conditions = conditions;
  finalizers = list_util;
  addresses = addresses;
  same_status = λ a b. false;
  same_spec = λ a b. true;
  same_labels = λ a b. true;
}

value_of : {A : Type 0} {x w : A} → ok x ≡ ok w → x ≡ w
value_of {A} {x} {w} h = ap (λ r. elim r as (λ x'. A) [ ok a ↦ a | err e ↦ x ]) h

role_result :
    (role : Text) (s : Server) (b : RoleBinding)
    → record { name = role; subjects = s.bound role } ≡ b
    → (b.name ≡ role) × (b.subjects ≡ s.bound role)
role_result role s b e = (ap (λ x. x.name) (sym e), ap (λ x. x.subjects) (sym e))

final_laws : FinalLaws servers parts
final_laws = record {
  subjects = λ s r. s.bound r;
  has_lease = λ s n. s.lease;
  ports_api = two_ports;
  ports_laws = two_ports_laws;
  allocator = λ s. s.ports;
  get_role_subjects = λ role r s. refl;
  get_role_result = λ role s b h. role_result role s b (value_of h);
  update_role_subjects = λ b r s h. refl;
  deallocate_subjects = λ n m r port s. refl;
  deallocate_result = λ n m port s. refl;
  deallocate_allocator = λ n m port s. refl;
  delete_lease_subjects = λ n r s. refl;
  delete_lease_allocator = λ n s. refl;
  delete_lease_gone = λ n s h. refl;
}

abbrev account : Subject
account = record {
  kind = text "ServiceAccount";
  api_group = [];
  name = text "k3k-c-kubelet";
  namespace = text "ns";
}

-- The allocator has given the Cluster a port.
abbrev fresh_ports : PortAllocator two_ports
fresh_ports = record {
  kubelet_cm = record {
    data_of = (range_key, text "7-8") ∷ (allocated_ports_key, []) ∷ [];
    binary_data = [];
  };
  server = none;
}

abbrev running : Server
running = record {
  object = cluster;
  bound = λ r. account ∷ [];
  lease = true;
  ports = (allocate_port two_ports (text "c") (text "ns") fresh_ports).1;
}

finalize_cluster-IsCleaned_example :
    ((e : ApiError) × (finalize_cluster conditions (λ t. t) list_util servers parts cluster running
        ≡ (
          err e,
          (clean_up conditions
              (λ t. t)
              list_util
              servers
              parts
              (as_terminating conditions cluster)
              running).1,
        )))
    ⊎ (IsCleaned conditions
          (λ t. t)
          list_util
          servers
          parts
          final_laws
          (as_terminating conditions cluster)
          (clean_up conditions
            (λ t. t)
            list_util
            servers
            parts
            (as_terminating conditions cluster)
            running).1
        × (finalize_cluster conditions (λ t. t) list_util servers parts cluster running
            ≡ remove_finalizer conditions
                (λ t. t)
                list_util
                servers
                parts
                (as_terminating conditions cluster)
                (clean_up conditions
                  (λ t. t)
                  list_util
                  servers
                  parts
                  (as_terminating conditions cluster)
                  running).1))
finalize_cluster-IsCleaned_example =
    finalize_cluster-IsCleaned conditions (λ t. t) list_util servers parts final_laws cluster
      running

abbrev request : NamespacedName
request = record { namespace = text "ns"; name = text "c" }

server_laws : ServerLaws servers request
server_laws = record {
  IsKept = λ s c. s.object ≡ c;
  get_kept = λ s c k. (ap ok k, k);
  update_kept = λ s old c w k h. (
    value_of h,
    ap (λ o. o.meta.finalizers) (sym (value_of h)),
    ap (λ o. o.meta.is_deleting) (sym (value_of h)) ∙ ap (λ o. o.meta.is_deleting) k,
    ap (λ o. o.status.phase) (sym (value_of h)) ∙ ap (λ o. o.status.phase) k,
  );
  status_kept = λ s old c w k h. (
    value_of h,
    ap (λ o. o.meta.finalizers) (sym (value_of h)) ∙ ap (λ o. o.meta.finalizers) k,
    ap (λ o. o.meta.is_deleting) (sym (value_of h)) ∙ ap (λ o. o.meta.is_deleting) k,
    ap (λ o. o.status.phase) (sym (value_of h)),
  );
}

running-Needs : Needs env servers parts request server_laws list_util_laws 2 running
unfolding Needs steps_left lacks_phase contains text text_eq server_laws
running-Needs = (cluster, refl, refl, refl)

runs_are_well : run_well env servers parts request server_laws list_util_laws 2 running ≡ true
unfolding run_well reconcile_request reconcile_read reconcile_live attempt pure ◌>>=◌ contains text
    text_eq set_status initial_status with_finalizers
runs_are_well = refl

runs-Reconciles_example :
    Reconciles env servers parts request server_laws list_util_laws
      (runs env servers parts request server_laws list_util_laws 2 running)
runs-Reconciles_example =
    runs-Reconciles env servers parts request server_laws list_util_laws 2 running running-Needs
      runs_are_well
