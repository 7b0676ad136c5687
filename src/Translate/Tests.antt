-- ===== src/Translate/Tests.antt =====
-- A ConfigMap of the namespace `ns` of the virtual cluster `c`.
use k3k.Prelude.{Text, text, text_eq, lookup, ◌<◌, ◌≡◌, refl, false, [], ◌∷◌, arith, length}
use k3k.Api.{ObjectMeta}
use k3k.Names.{safe_concat_name}
use k3k.Translate.{ToHostTranslator, translate_name, translate_to, translate_from}
use k3k.Translate.RoundTrip.{IsUntracked, portable, translate_from-translate_to}
use k3k.Translate.Injective.{IsTranslatable, host_path, translate_name_injective}

abbrev translator : ToHostTranslator
translator = record { cluster_name = text "c"; cluster_namespace = text "k3k-c" }

abbrev empty_digest : Text → Text
empty_digest s = []

abbrev settings : ObjectMeta
settings = record {
  name = text "cm";
  namespace = text "ns";
  labels = (text "app", text "web") ∷ [];
  annotations = (text "note", text "x") ∷ [];
  owner_references = text "owner" ∷ [];
  finalizers = text "f" ∷ [];
  resource_version = text "7";
  uid = text "u1";
  is_deleting = false;
}

host_name :
    translate_name empty_digest translator (text "ns") (text "cm") ≡ text "cm-ns-c-636d2b6e732b63"
unfolding translate_name safe_concat_name
host_name = refl

settings-IsUntracked : IsUntracked settings
unfolding lookup text_eq text
settings-IsUntracked = record { no_name = refl; no_namespace = refl; no_cluster = refl }

translate_from-translate_to_example :
    translate_from (translate_to empty_digest translator settings) ≡ portable settings
translate_from-translate_to_example =
    translate_from-translate_to empty_digest translator settings settings-IsUntracked

short_name-IsTranslatable : IsTranslatable translator (text "ns") (text "cm")
unfolding text
short_name-IsTranslatable = record {
  name_given = refl;
  name_lacks = (refl, (refl, tt));
  namespace_lacks = (refl, (refl, tt));
  cluster_lacks = (refl, tt);
  name_bytes = omega arith;
  namespace_bytes = omega arith;
  cluster_bytes = omega arith;
}

short_path : length (host_path translator (text "ns") (text "cm")) < 64
unfolding host_path text
short_path = omega arith

translate_name_injective_example :
    (text "cm" ≡ text "cm")
    × (text "ns" ≡ text "ns")
    × (translator.cluster_name ≡ translator.cluster_name)
translate_name_injective_example =
    translate_name_injective empty_digest translator translator (text "ns") (text "ns") (text "cm")
      (text "cm") short_name-IsTranslatable short_name-IsTranslatable short_path short_path refl
