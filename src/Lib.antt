-- ===== src/Lib.antt =====
-- k3k: Kubernetes clusters inside of a Kubernetes cluster. A controller on the host cluster
-- (pkg/controller) makes the servers of each virtual cluster and reports its status; a virtual kubelet
-- (k3k-kubelet) registers nodes in the virtual cluster, copies its objects to the host cluster and
-- reports what the nodes have. This library models the parts that decide something: how names and
-- metadata are translated, when objects are written and deleted, how ports and quotas are shared out,
-- and how a cluster is reached.
--
-- The parts, by file:
--   Prelude (Tests, Lists, Strings, Maps): Boolean tests, lists, Go's byte strings (`Text`), and Go's
--     maps as association lists (`Dict`).
--   Api: the metadata of objects, the errors that the program tells apart, and a client of an API server
--     with its documented laws.
--   Names: pkg/controller/controller.go. `safe_concat_name` is SafeConcatName; the versions are
--     ResolveK3sVersion, ReleaseName and KubernetesVersion.
--   Translate: k3k-kubelet/translate/host.go. `translate_to`, `translate_from` and `translate_name` are
--     the methods of ToHostTranslator.
--   Syncer: k3k-kubelet/controller/syncer/{configmap,secret,service,priorityclass}.go. The four
--     Reconcile methods differ in the copy, in how it is adapted to an existing one, and in the finalizer:
--     `reconcile_synced` is what they share, and Syncer.Kinds gives each one. The state `World` is the
--     state of both API servers. Syncer.Filters has the filterResources methods.
--   Ports: pkg/controller/cluster/agent/ports.go. The state is the ConfigMap in memory and the API server;
--     `allocate_port` and `deallocate_port` are the methods, each nested error check a function by clauses.
--     Ports.Runs runs any sequence of calls.
--   Quotas: k3k-kubelet/provider/configure_capacity.go. `merge_quotas`, `filter_quotas` and
--     `distribute_quotas`; the loops over nodes are recursions on the sorted node names. Quotas.Capacity is
--     updateNodeCapacity: what the requests return is an argument, what is written is the result.
--   Expose: pkg/controller/cluster/server/{service,endpoint,config,ingress}.go. `service` and `ingress`
--     are the objects that the controller makes, Expose.Address.url is URL, and `build_server_config` is
--     buildServerConfig.
--   Status: pkg/controller/cluster/status.go. `update_status` returns the status and the events.
--   Action: actions on the state of the servers that return a result or an error, for do blocks, and what
--     an action keeps.
--   Pods: k3k-kubelet/provider/provider.go and token.go. `create_pod` is createPod, in the order of its
--     statements: Pods.Create has the fields that bind a pod to the host, Pods.Env the environment and the
--     networking, Pods.Volumes the volumes, Pods.Tokens the tokens of service accounts. Pods.Calls has
--     updatePod, deletePod and the reads, Pods.Retry is withRetry, Pods.Renewal is refreshTokens. The state
--     is both clusters and the clock (Pods.Kubelet).
--   Policy: pkg/controller/policy. `Policy.Reconcile.reconcile` is Reconcile, with the end of a policy;
--     Policy.Owned writes the quota, the limits and the network policy of a namespace, Policy.Labels its
--     pod security labels, Policy.Clusters the status of its Clusters.
--   Reconciler: pkg/controller/cluster/{cluster,cluster_finalize}.go. `reconcile_request` is Reconcile,
--     `Reconciler.Run.reconcile` is reconcile, with the Cluster as a variable next to the state of the
--     servers, since what is set before an error stays set; `finalize_cluster` is finalizeCluster.
--   Reconciler.StorageClasses: ensureStorageClasses of cluster.go, with the clients of both clusters; the
--     reconciler calls it through ClusterParts.
--   StatefulSets: pkg/controller/cluster/statefulset.go. `reconcile` is Reconcile, `remove_peer` removePeer;
--     the calls of Kubernetes and of etcd are a record (EtcdApi). StatefulSets.Peers says which
--     member of etcd a pod was.
--   Token: pkg/controller/cluster/token.go. `token` is what the controller uses, `get_cluster_token` what
--     others read.
--
-- How they interact: the translation names its host objects by Names; the syncers take the translation as
-- the copy that they write; the Service, the Ingress and the token secret are named by Names too, and the
-- URL is read back from the Service and the Ingress. The reconciler makes the Service and the Ingress of
-- Expose and ends with Status; the policy writes into the status of a Cluster what the creation of pods
-- reads (Policy.Enforced). The parts of the controller that the reconciler calls and that are not modelled
-- in its terms are a record of calls (ClusterParts).
--
-- Effects are explicit: a call of an API server takes its state to the next one and returns an error as a
-- value. What libraries do (API servers, controllerutil, YAML, the port bitmap, quantities, SHA-256, the
-- IP parser, string sets, conditions) is a parameter, and what is relied on is a record of laws.
--
-- Bounds and fuel: SafeConcatName cuts at 57 bytes and adds six. The redistribution loop of
-- distributeQuotas runs on fuel, one for each unit of the quota and one for each eligible node: each
-- pass gives out a unit or leaves fewer nodes. All other loops are structural. Numbers of quantities are
-- natural numbers: the API validates that they are not negative. Ports that a user may set are integers.
--
-- withRetry polls as long as ten seconds allow: the number of calls is a parameter of its theorems. Times
-- are nanoseconds from the year 1, and the arithmetic of durations wraps around in 64 bits as Go's does.
--
-- Texts of errors are shortened where nothing reads them.
--
-- Not modelled: the command line, the construction of the StatefulSet, the agents and the certificates,
-- the snapshot controller, the streams of the virtual kubelet, and the other syncers. These are input
-- and output, construction of API objects, or not treated yet.
pub mod Prelude
pub mod Api
pub mod Action
pub mod Names
pub mod Translate
pub mod Quotas
pub mod Syncer
pub mod Pods
pub mod Policy
pub mod Reconciler
pub mod Ports
pub mod Expose
pub mod Status
pub mod Token
pub mod StatefulSets
