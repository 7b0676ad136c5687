-- ===== src/Syncer/Filters.antt =====
-- Which objects of each kind the syncers reconcile: `filterResources` of
-- k3k-kubelet/controller/syncer/{configmap,secret,service,priorityclass}.go, and the predicate on the
-- system's priority classes.
use k3k.Prelude.{text, has_prefix, Bool, not}
use k3k.Api.{ObjectMeta, ApiResult, ok, err}
use k3k.Syncer.{Selectors, SyncConfig, filter_resources}

-- `cluster.Spec.Sync`.
pub record SyncSpec : Type 0 where
  pub config_maps : SyncConfig
  pub secrets : SyncConfig
  pub services : SyncConfig
  pub priority_classes : SyncConfig

abbrev of_kind : (SyncSpec → SyncConfig) → ApiResult SyncSpec → ApiResult SyncConfig
of_kind kind (err e) = err e
of_kind kind (ok spec) = ok (kind spec)

module _ (selectors : Selectors) where
  unfoldable pub config_map_filter : ApiResult SyncSpec → ObjectMeta → Bool
  unfolding filter_resources
  config_map_filter r o = filter_resources selectors (of_kind (λ s. s.config_maps) r) o

  unfoldable pub secret_filter : ApiResult SyncSpec → ObjectMeta → Bool
  unfolding filter_resources
  secret_filter r o = filter_resources selectors (of_kind (λ s. s.secrets) r) o

  unfoldable pub service_filter : ApiResult SyncSpec → ObjectMeta → Bool
  unfolding filter_resources
  service_filter r o = filter_resources selectors (of_kind (λ s. s.services) r) o

  unfoldable pub priority_class_filter : ApiResult SyncSpec → ObjectMeta → Bool
  unfolding filter_resources
  priority_class_filter r o = filter_resources selectors (of_kind (λ s. s.priority_classes) r) o

-- The predicate that drops the events of the classes named `system-…`.
unfoldable pub ignore_system_prefix : ObjectMeta → Bool
unfolding has_prefix text
ignore_system_prefix o = not (has_prefix o.name (text "system-"))
