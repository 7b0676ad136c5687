-- ===== src/Translate.antt =====
-- Names and metadata between the virtual and the host cluster (k3k-kubelet/translate/host.go).
pub mod RoundTrip
pub mod Injective
mod Tests
use k3k.Prelude.{
  Text, text, is_empty, join, Dict, lookup, insert, delete, Option, none, some, List, [], ◌∷◌, ◌++◌,
  if◌then◌else◌,
}
use k3k.Api.{ObjectMeta, NamespacedName}
use k3k.Names.{hex_encode, safe_concat_name}

abbrev pub metadata_prefix : Text
metadata_prefix = text "k3k.io/"

abbrev pub cluster_name_label : Text
cluster_name_label = text "k3k.io/clusterName"

abbrev pub resource_name_annotation : Text
resource_name_annotation = text "k3k.io/name"

abbrev pub resource_namespace_annotation : Text
resource_namespace_annotation = text "k3k.io/namespace"

pub record ToHostTranslator : Type 0 where
  pub cluster_name : Text
  pub cluster_namespace : Text

-- `m[k]` of a map of strings, the empty string for a missing key.
unfoldable pub get_text : Text → Dict Text → Text
unfolding lookup
get_text k m = elim (lookup k m) [ none ↦ [] | some v ↦ v ]

-- The parts of a host name, without the namespace where there is none.
unfoldable pub name_parts : ToHostTranslator → Text → Text → List Text
name_parts t namespace name =
    if is_empty namespace
    then name ∷ t.cluster_name ∷ []
    else name ∷ namespace ∷ t.cluster_name ∷ []

module _ (sha256 : Text → Text) (t : ToHostTranslator) where
  unfoldable pub translate_name : Text → Text → Text
  unfolding name_parts join text hex_encode
  translate_name namespace name =
      let names = name_parts t namespace name in
      safe_concat_name sha256 (join (text "-") names ∷ hex_encode (join (text "+") names) ∷ [])

  unfoldable pub namespaced_name : ObjectMeta → NamespacedName
  unfolding translate_name
  namespaced_name obj = record {
    namespace = t.cluster_namespace;
    name = translate_name obj.namespace obj.name;
  }

  unfoldable pub translate_to : ObjectMeta → ObjectMeta
  unfolding insert
  translate_to obj = record obj {
    owner_references = [];
    annotations =
        insert resource_namespace_annotation obj.namespace
          (insert resource_name_annotation obj.name obj.annotations);
    labels = insert cluster_name_label t.cluster_name obj.labels;
    resource_version = [];
    uid = [];
    name = translate_name obj.namespace obj.name;
    namespace = t.cluster_namespace;
    finalizers = [];
  }

unfoldable pub translate_from : ObjectMeta → ObjectMeta
unfolding get_text delete
translate_from obj = record obj {
  owner_references = [];
  name = get_text resource_name_annotation obj.annotations;
  namespace = get_text resource_namespace_annotation obj.annotations;
  annotations =
      delete resource_namespace_annotation (delete resource_name_annotation obj.annotations);
  labels = delete cluster_name_label obj.labels;
  resource_version = [];
  uid = [];
}
