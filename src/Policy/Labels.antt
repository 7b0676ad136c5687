-- ===== src/Policy/Labels.antt =====
-- The pod security labels of a namespace (pkg/controller/policy/namespace.go and policy_finalize.go).
use k3k.Prelude.{
  Text, text, text_eq, Dict, lookup, insert, delete, lookup-insert, lookup-delete, Bool, true,
  false, not, ◌&&◌, ◌||◌, Option, none, some, ◌≡◌, refl, ap, ◌∙◌, arith, if◌then◌else◌,
}

abbrev pub enforce_label : Text
enforce_label = text "pod-security.kubernetes.io/enforce"

abbrev pub enforce_version_label : Text
enforce_version_label = text "pod-security.kubernetes.io/enforce-version"

abbrev pub warn_label : Text
warn_label = text "pod-security.kubernetes.io/warn"

abbrev pub warn_version_label : Text
warn_version_label = text "pod-security.kubernetes.io/warn-version"

abbrev pub policy_name_label_key : Text
policy_name_label_key = text "policy.k3k.io/policy-name"

unfoldable pub without_psa : Dict Text → Dict Text
unfolding delete
without_psa labels =
    delete warn_version_label
      (delete warn_label (delete enforce_version_label (delete enforce_label labels)))

unfoldable pub with_warn : Text → Dict Text → Dict Text
unfolding insert text text_eq
with_warn level labels =
    if not (text_eq level (text "privileged"))
    then insert warn_version_label (text "latest") (insert warn_label level labels)
    else labels

unfoldable pub with_psa : Option Text → Dict Text → Dict Text
unfolding with_warn insert text
with_psa none labels = labels
with_psa (some level) labels =
    with_warn level
      (insert enforce_version_label (text "latest") (insert enforce_label level labels))

unfoldable pub reconcile_namespace_pod_security_labels : Option Text → Dict Text → Dict Text
unfolding without_psa with_psa
reconcile_namespace_pod_security_labels level labels = with_psa level (without_psa labels)

-- The labels of a namespace that its policy lets go.
unfoldable pub released_labels : Option Text → Dict Text → Dict Text
unfolding without_psa delete
released_labels none labels = delete policy_name_label_key labels
released_labels (some level) labels = without_psa (delete policy_name_label_key labels)

-- What a policy wants a label of pod security to be: the level and its version to be enforced, and a
-- warning by them unless the level is privileged.
unfoldable pub psa_value : Option Text → Text → Option Text
unfolding text text_eq
psa_value none key = none
psa_value (some level) key =
    let warns = not (text_eq level (text "privileged")) in
    if warns && text_eq warn_version_label key
    then some (text "latest")
    else if warns && text_eq warn_label key
    then some level
    else if text_eq enforce_version_label key
    then some (text "latest")
    else if text_eq enforce_label key
    then some level
    else none

unfoldable pub is_psa_label : Text → Bool
unfolding text_eq text
is_psa_label key =
    (text_eq enforce_label key || text_eq enforce_version_label key)
    || (text_eq warn_label key || text_eq warn_version_label key)

-- The four deletions, whatever the keys.
lookup-deletes :
    (a b c d k : Text) (m : Dict Text)
    → lookup k (delete d (delete c (delete b (delete a m))))
      ≡ (if (text_eq a k || text_eq b k) || (text_eq c k || text_eq d k) then none else lookup k m)
lookup-deletes a b c d k m =
    rw
      (
        lookup-delete d k (delete c (delete b (delete a m))),
        lookup-delete c k (delete b (delete a m)),
        lookup-delete b k (delete a m),
        lookup-delete a k m,
      )
      (ground arith)

-- The insertions, with and without the last two.
lookup-inserts :
    (a b c d u v k : Text) (warns : Bool) (m : Dict Text)
    → lookup k (
        if warns
        then insert d v (insert c u (insert b v (insert a u m)))
        else insert b v (insert a u m))
      ≡ (if warns && text_eq d k
          then some v
          else if warns && text_eq c k
          then some u
          else if text_eq b k
          then some v
          else if text_eq a k
          then some u
          else lookup k m)
lookup-inserts a b c d u v k true m =
    rw
      (
        lookup-insert d k v (insert c u (insert b v (insert a u m))),
        lookup-insert c k u (insert b v (insert a u m)),
        lookup-insert b k v (insert a u m),
        lookup-insert a k u m,
      )
      refl
lookup-inserts a b c d u v k false m =
    rw (lookup-insert b k v (insert a u m), lookup-insert a k u m) refl

choose_lem :
    (warns a b c d : Bool) (v u x : Option Text)
    → (if warns && d
        then v
        else if warns && c
        then u
        else if b
        then v
        else if a
        then u
        else (if (a || b) || (c || d) then none else x))
      ≡ (if (a || b) || (c || d)
          then (if warns && d
              then v
              else if warns && c
              then u
              else if b
              then v
              else if a
              then u
              else none)
          else x)
choose_lem warns a b c d v u x = ground arith

-- Every label of pod security has the value that the policy wants, where it wants none too, and every
-- other label of the namespace is as it was.
pub lookup-reconcile_namespace_pod_security_labels :
    (k : Text) (level : Option Text) (labels : Dict Text)
    → lookup k (reconcile_namespace_pod_security_labels level labels)
      ≡ (if is_psa_label k then psa_value level k else lookup k labels)
unfolding reconcile_namespace_pod_security_labels with_psa with_warn without_psa is_psa_label
    psa_value
lookup-reconcile_namespace_pod_security_labels k none labels =
    lookup-deletes enforce_label enforce_version_label warn_label warn_version_label k labels
lookup-reconcile_namespace_pod_security_labels k (some level) labels =
    lookup-inserts enforce_label enforce_version_label warn_label warn_version_label level
      (text "latest") k (not (text_eq level (text "privileged"))) (without_psa labels)
    ∙ (ap
          (λ x.
            if not (text_eq level (text "privileged")) && text_eq warn_version_label k
            then some (text "latest")
            else if not (text_eq level (text "privileged")) && text_eq warn_label k
            then some level
            else if text_eq enforce_version_label k
            then some (text "latest")
            else if text_eq enforce_label k
            then some level
            else x)
          (lookup-deletes enforce_label enforce_version_label warn_label warn_version_label k
            labels)
        ∙ choose_lem (not (text_eq level (text "privileged"))) (text_eq enforce_label k)
            (text_eq enforce_version_label k) (text_eq warn_label k) (text_eq warn_version_label k)
            (some (text "latest")) (some level) (lookup k labels))
