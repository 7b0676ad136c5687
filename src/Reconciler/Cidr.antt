-- ===== src/Reconciler/Cidr.antt =====
-- The address ranges of a Cluster (`lookupServiceCIDR` of pkg/controller/cluster/cluster.go, and the part
-- of `reconcile` that sets the status).
use k3k.Prelude.{
  Text, text, is_empty, has_prefix, trim_prefix, not, Option, none, some, List, [], ◌∷◌,
  if◌then◌else◌,
}
use k3k.Api.{ApiResult, ok, err, not_found, already_exists, other}
use k3k.Action.{Action, Done, pure, raise, of_result, attempt, ◌>>=◌}
use k3k.Expose.{ClusterMode, unset, shared, virtual_cluster, hcp}
use k3k.Reconciler.{ClusterApi, error_text}

abbrev pub default_virtual_cluster_cidr : Text
default_virtual_cluster_cidr = text "10.52.0.0/16"

abbrev pub default_virtual_service_cidr : Text
default_virtual_service_cidr = text "10.53.0.0/16"

abbrev pub default_shared_cluster_cidr : Text
default_shared_cluster_cidr = text "10.42.0.0/16"

abbrev pub default_shared_service_cidr : Text
default_shared_service_cidr = text "10.43.0.0/16"

-- Go's libraries: `net.ParseCIDR` with the text of the network, and what follows a substring, trimmed,
-- where a text has it (`strings.Split` and `strings.TrimSpace`).
pub record CidrUtil : Type 0 where
  pub parse_cidr : Text → ApiResult Text
  pub after_text : Text → Text → Option Text

abbrev pub range_flag : Text
range_flag = text "--service-cluster-ip-range="

-- The first flag decides, and an invalid value ends the loop.
unfoldable pub range_in_args : CidrUtil → List Text → Text
unfolding has_prefix trim_prefix text
range_in_args u [] = []
range_in_args u (arg ∷ args) =
    let rest = range_in_args u args in
    if has_prefix arg range_flag
    then (elim (u.parse_cidr (trim_prefix arg range_flag)) [ ok cidr ↦ cidr | err e ↦ [] ])
    else rest

-- The arguments of the first container of the first Pod.
unfoldable pub range_in_pods : CidrUtil → List (List Text) → Text
unfolding range_in_args
range_in_pods u [] = []
range_in_pods u (args ∷ pods) = range_in_args u args

unfoldable pub cluster_cidr_of : ClusterMode → Text → Text
cluster_cidr_of mode given =
    if not (is_empty given)
    then given
    else (elim mode [ shared ↦ default_shared_cluster_cidr | _ ↦ default_virtual_cluster_cidr ])

-- An error of the lookup is logged.
unfoldable pub looked_up : ApiResult Text → Text
looked_up (ok cidr) = cidr
looked_up (err e) = default_shared_service_cidr

module _ (api : ClusterApi) (u : CidrUtil) where
  open api use {State}

  -- Where the Pods cannot be listed for another reason than that there is nothing.
  unfoldable pub from_pods : ApiResult (List (List Text)) → Action State Text
  unfolding range_in_pods
  from_pods (ok pods) = pure (range_in_pods u pods)
  from_pods (err not_found) = pure []
  from_pods (err already_exists) = raise already_exists
  from_pods (err (other e)) = raise (other e)

  unfoldable pub from_args : Action State Text
  unfolding from_pods
  from_args = attempt api.list_api_server_args >>= from_pods

  unfoldable pub from_message : Option Text → Action State Text
  unfolding from_args
  from_message none = from_args
  from_message (some cidr) = of_result (u.parse_cidr cidr)

  -- The range that the error of the creation names.
  unfoldable pub from_creation : ApiResult Done → Action State Text
  unfolding from_message error_text text
  from_creation (ok x) = from_args
  from_creation (err e) =
      from_message (u.after_text (text "The range of valid IPs is ") (error_text e))

  unfoldable pub from_service_cidr : ApiResult (List Text) → Action State Text
  unfolding from_creation
  from_service_cidr (ok (cidr ∷ rest)) = of_result (u.parse_cidr cidr)
  from_service_cidr (ok []) = attempt api.create_failing_service >>= from_creation
  from_service_cidr (err e) = attempt api.create_failing_service >>= from_creation

  unfoldable pub lookup_service_cidr : Action State Text
  unfolding from_service_cidr text
  lookup_service_cidr = attempt (api.get_service_cidrs (text "kubernetes")) >>= from_service_cidr

  unfoldable pub default_service_cidr : ClusterMode → Action State Text
  unfolding lookup_service_cidr looked_up
  default_service_cidr shared = attempt lookup_service_cidr >>= λ r. pure (looked_up r)
  default_service_cidr virtual_cluster = pure default_virtual_service_cidr
  default_service_cidr hcp = pure default_virtual_service_cidr
  default_service_cidr unset = pure []

  unfoldable pub service_cidr_of : ClusterMode → Text → Action State Text
  unfolding default_service_cidr
  service_cidr_of mode given =
      if not (is_empty given) then pure given else default_service_cidr mode
