-- ===== src/Api/Memory.antt =====
-- The finalizer helpers on lists, for the tests.
use k3k.Prelude.{
  Text, text_eq, text_eq_iff, contains, true, false, not, List, [], ◌∷◌, ◌≡◌, refl, arith,
  if◌then◌else◌, keep,
}
use k3k.Api.{FinalizerUtil, FinalizerLaws}

abbrev pub list_util : FinalizerUtil
list_util = record {
  add = λ f fs. if contains fs f then (fs, false) else (f ∷ fs, true);
  remove = λ f fs. (keep (λ g. not (text_eq g f)) fs, contains fs f);
}

contains-keep : (f : Text) (fs : List Text) → contains (keep (λ g. not (text_eq g f)) fs) f ≡ false
unfolding contains keep
contains-keep f [] = refl
contains-keep f (g ∷ fs) = ground (arith, contains-keep f fs)

add_contains : (f : Text) (fs : List Text) → contains (list_util.add f fs).0 f ≡ true
unfolding contains
add_contains f fs = ground (arith, text_eq_iff f f)

pub list_util_laws : FinalizerLaws list_util
list_util_laws = record {
  add-contains = add_contains;
  add_changes = λ f fs. ground arith;
  remove-contains = contains-keep;
  remove_changes = λ f fs. refl;
}
