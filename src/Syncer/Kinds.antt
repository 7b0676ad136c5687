-- ===== src/Syncer/Kinds.antt =====
-- The `Reconcile` methods of the ConfigMap, Secret, Service and PriorityClass syncers, and the copies
-- that they make.
use k3k.Prelude.{Text, text, text_eq, insert, Bool, false, ◌||◌, Option, none, if◌then◌else◌}
use k3k.Api.{NamespacedName, Object, ApiError, ApiResult, Client, FinalizerUtil}
use k3k.Translate.{ToHostTranslator, translate_to}
use k3k.Syncer.{World, reconcile_synced}

-- A Secret, with the rest of its fields.
pub record SecretPayload (R : Type 0) : Type 0 where
  pub secret_type : Text
  pub rest : R

-- A PriorityClass, with the rest of its fields.
pub record PriorityClassPayload (R : Type 0) : Type 0 where
  pub global_default : Bool
  pub rest : R

-- The Secret types of k8s.io/api/core/v1 that the Secret syncer names.
pub record SecretTypes : Type 0 where
  pub service_account_token : Text
  pub opaque : Text

abbrev pub priority_class_global_default_annotation : Text
priority_class_global_default_annotation = text "priorityclass.k3k.io/globalDefault"

-- Updating writes the copy as it was made.
abbrev pub as_made : {P : Type 0} → Object P → Object P → Object P
as_made existing synced = synced

-- Updating a PriorityClass keeps the resource version of the host's.
unfoldable pub keep_version : {P : Type 0} → Object P → Object P → Object P
keep_version existing synced =
    let m = synced.meta in
    record synced { meta = record m { resource_version = existing.meta.resource_version } }

module _ (sha256 : Text → Text) (t : ToHostTranslator) where
  unfoldable pub translate_config_map : {P : Type 0} → Object P → Object P
  unfolding translate_to
  translate_config_map o = record o { meta = translate_to sha256 t o.meta }

  unfoldable pub service : {P : Type 0} → Object P → Object P
  unfolding translate_to
  service obj = record obj { meta = translate_to sha256 t obj.meta }

  unfoldable pub translate_secret :
      {R : Type 0} → SecretTypes → Object (SecretPayload R) → Object (SecretPayload R)
  unfolding translate_to text_eq
  translate_secret types secret =
      let p = secret.payload in
      record {
        meta = translate_to sha256 t secret.meta;
        payload =
            if text_eq p.secret_type types.service_account_token
            then record p { secret_type = types.opaque }
            else p;
      }

  unfoldable pub translate_priority_class :
      {R : Type 0} → Object (PriorityClassPayload R) → Object (PriorityClassPayload R)
  unfolding translate_to insert text
  translate_priority_class c =
      let m = translate_to sha256 t c.meta in
      let p = c.payload in
      if p.global_default
      then record {
        meta = record m {
          annotations = insert priority_class_global_default_annotation (text "true") m.annotations;
        };
        payload = record p { global_default = false };
      }
      else record { meta = m; payload = p }

  module _ {P C : Type 0} (host virt : Client P) (util : FinalizerUtil)
      (get_cluster : host.State → ApiResult C × host.State)
      (set_owner_reference : C → Object P → ApiResult (Object P)) where
    unfoldable pub config_map_reconcile :
        NamespacedName → World host virt util → Option ApiError × World host virt util
    unfolding reconcile_synced translate_config_map text
    config_map_reconcile req w =
        reconcile_synced host virt util get_cluster
          (λ cluster o. set_owner_reference cluster (translate_config_map o)) as_made
          (text "configmap.k3k.io/finalizer") req w

    unfoldable pub service_reconcile :
        NamespacedName → World host virt util → Option ApiError × World host virt util
    unfolding reconcile_synced service text text_eq
    service_reconcile req w =
        if text_eq req.name (text "kubernetes") || text_eq req.name (text "kube-dns")
        then (none, w)
        else reconcile_synced host virt util get_cluster
            (λ cluster o. set_owner_reference cluster (service o)) as_made
            (text "service.k3k.io/finalizer") req w

  module _ {R C : Type 0} (types : SecretTypes) (host virt : Client (SecretPayload R))
      (util : FinalizerUtil) (get_cluster : host.State → ApiResult C × host.State)
      (set_owner_reference : C
        → Object (SecretPayload R)
        → ApiResult (Object (SecretPayload R))) where
    unfoldable pub secret_reconcile :
        NamespacedName → World host virt util → Option ApiError × World host virt util
    unfolding reconcile_synced translate_secret text
    secret_reconcile req w =
        reconcile_synced host virt util get_cluster
          (λ cluster o. set_owner_reference cluster (translate_secret types o)) as_made
          (text "secret.k3k.io/finalizer") req w

  module _ {R C : Type 0} (host virt : Client (PriorityClassPayload R)) (util : FinalizerUtil)
      (get_cluster : host.State → ApiResult C × host.State)
      (set_owner_reference : C
        → Object (PriorityClassPayload R)
        → ApiResult (Object (PriorityClassPayload R))) where
    unfoldable pub priority_class_reconcile :
        NamespacedName → World host virt util → Option ApiError × World host virt util
    unfolding reconcile_synced translate_priority_class keep_version text
    priority_class_reconcile req w =
        reconcile_synced host virt util get_cluster
          (λ cluster o. set_owner_reference cluster (translate_priority_class o)) keep_version
          (text "priorityclass.k3k.io/finalizer") req w
