-- ===== src/Status/Tests.antt =====
-- Conditions as a list with one entry for each type.
use k3k.Prelude.{
  Text, text_eq, text_eq_refl, Bool, true, false, not, ◌&&◌, none, List, [], ◌∷◌, ◌≡◌,
  if◌then◌else◌, arith,
}
use k3k.Status.{
  Condition, ConditionApi, ConditionLaws, ClusterStatus, update_status, is_ready, is_ready_phase,
  announces, provisioning,
}
use k3k.Status.Ready.{update_status_ready, announces-update_status}

set : List Condition → Condition → List Condition
set [] c = c ∷ []
set (d ∷ ds) c = let rest = set ds c in if text_eq d.type c.type then c ∷ ds else d ∷ rest

present : List Condition → Text → Bool → Bool
present [] t b = false
present (d ∷ ds) t b =
    let rest = present ds t b in
    if text_eq d.type t then (if b then d.status else not d.status) else rest

present-set :
    (cs : List Condition) (c : Condition) (b : Bool)
    → present (set cs c) c.type b ≡ (if b then c.status else not c.status)
unfolding present set
present-set [] c b = ground (arith, text_eq_refl c.type)
present-set (d ∷ ds) c b = ground (arith, text_eq_refl c.type, present-set ds c b)

abbrev conditions : ConditionApi
conditions = record { set_status_condition = set; is_present_and_equal = present }

conditions_laws : ConditionLaws conditions
conditions_laws = record { set_present = present-set }

abbrev starting : ClusterStatus conditions
starting = record { is_deleting = false; phase = provisioning; conditions = [] }

update_status_ready_example :
    (is_ready conditions (update_status conditions starting none).0
      ≡ is_ready_phase conditions (update_status conditions starting none).0.phase)
    × (is_ready conditions (update_status conditions starting none).0 ≡ true)
update_status_ready_example = update_status_ready conditions conditions_laws starting none

announces-update_status_example :
    announces conditions (update_status conditions starting none).1 ≡ (
      not (is_ready conditions starting)
      && is_ready conditions (update_status conditions starting none).0)
announces-update_status_example = announces-update_status conditions conditions_laws starting none
