-- ===== src/Translate/RoundTrip.antt =====
-- `TranslateTo` followed by `TranslateFrom` (k3k-kubelet/translate/host.go).
use k3k.Prelude.{
  Text, text, text_eq, lookup, insert, delete, lookup-insert, lookup-insert_self,
  delete-insert_absent, delete-insert_ne, ◌≡◌, refl, false, none, [], arith,
}
use k3k.Api.{ObjectMeta}
use k3k.Translate.{
  ToHostTranslator, get_text, translate_to, translate_from, cluster_name_label,
  resource_name_annotation, resource_namespace_annotation,
}

-- The object carries no tracking annotation or label of its own.
pub record IsUntracked (obj : ObjectMeta) : Type 0 where
  pub no_name : lookup resource_name_annotation obj.annotations ≡ none
  pub no_namespace : lookup resource_namespace_annotation obj.annotations ≡ none
  pub no_cluster : lookup cluster_name_label obj.labels ≡ none

keys_differ : text_eq resource_namespace_annotation resource_name_annotation ≡ false
unfolding text_eq text
keys_differ = refl

-- The object without what belongs to one cluster alone.
abbrev pub portable : ObjectMeta → ObjectMeta
portable obj = record obj {
  owner_references = [];
  resource_version = [];
  uid = [];
  finalizers = [];
}

module _ (sha256 : Text → Text) (t : ToHostTranslator) (obj : ObjectMeta)
    (u : IsUntracked obj) where
  tracked_name :
      get_text resource_name_annotation (translate_to sha256 t obj).annotations ≡ obj.name
  unfolding get_text translate_to
  tracked_name = ground (
    arith,
    keys_differ,
    lookup-insert resource_namespace_annotation resource_name_annotation obj.namespace
        (insert resource_name_annotation obj.name obj.annotations),
    lookup-insert_self resource_name_annotation obj.name obj.annotations,
  )

  tracked_namespace :
      get_text resource_namespace_annotation (translate_to sha256 t obj).annotations ≡ obj.namespace
  unfolding get_text translate_to
  tracked_namespace = ground (
    arith,
    lookup-insert_self resource_namespace_annotation obj.namespace
        (insert resource_name_annotation obj.name obj.annotations),
  )

  annotations_back :
      delete resource_namespace_annotation
        (delete resource_name_annotation (translate_to sha256 t obj).annotations)
      ≡ obj.annotations
  unfolding translate_to
  annotations_back =
      rw
        (
          delete-insert_ne resource_namespace_annotation resource_name_annotation obj.namespace
              (insert resource_name_annotation obj.name obj.annotations) keys_differ,
          delete-insert_absent resource_name_annotation obj.name obj.annotations u.no_name,
        )
        (delete-insert_absent resource_namespace_annotation obj.namespace obj.annotations
          u.no_namespace)

  labels_back : delete cluster_name_label (translate_to sha256 t obj).labels ≡ obj.labels
  unfolding translate_to
  labels_back = delete-insert_absent cluster_name_label t.cluster_name obj.labels u.no_cluster

  -- Translating an object to the host and back gives back its name, namespace, labels and
  -- annotations, if it carried none of the tracking keys itself; owner references, resource version,
  -- UID and finalizers do not cross.
  pub translate_from-translate_to : translate_from (translate_to sha256 t obj) ≡ portable obj
  unfolding translate_from translate_to
  translate_from-translate_to =
      ground (arith, tracked_name, tracked_namespace, annotations_back, labels_back)
