-- ===== src/Ports/Tests.antt =====
-- A port allocator over two ports, on a server that never fails by itself.
use k3k.Prelude.{
  text, text_eq, lookup, insert, delete, ℕ, ◌≡◌, refl, true, ap, Option, none, some, List, [], ◌∷◌,
}
use k3k.Api.{ok}
use k3k.Translate.{get_text}
use k3k.Ports.{
  ConfigMap, PortAllocator, ports_text, load, cluster_key, get_or_create, after_get,
  after_serialize, after_snapshot, save_snapshot, store_port, take_next, with_allocator, assign,
  with_ports, with_config_map, allocate_from, allocate_port, write_back, store_release,
  after_release, release_with, release_used, release_from, release_in, deallocate_from,
  deallocate_port, range_key, allocated_ports_key,
}
use k3k.Ports.Freed.{IsFreed, deallocate_port-IsFreed}
use k3k.Ports.Memory.{
  encode, push, decode, member, remove, next_port, found, create_in, two_ports, two_ports_laws,
}
use k3k.Ports.Allocation.{IsGranted}
use k3k.Ports.Runs.{
  Call, perform, perform_all, perform_all-IsGranted, perform_all_distinct, perform_all_used,
}

abbrev configured : PortAllocator two_ports
configured = record {
  kubelet_cm = record {
    data_of = (range_key, text "7-8") ∷ (allocated_ports_key, []) ∷ [];
    binary_data = [];
  };
  server = none;
}

abbrev cm_of : Option ConfigMap → ConfigMap
cm_of none = record { data_of = []; binary_data = [] }
cm_of (some cm) = cm

granted_port : (allocate_port two_ports (text "c") (text "n") configured).0 ≡ ok 7
unfolding perform perform_all allocate_port allocate_from get_or_create after_get with_config_map
    with_ports ports_text get_text lookup insert text_eq assign load with_allocator take_next
    next_port member save_snapshot after_snapshot after_serialize store_port found create_in decode
    encode push text cluster_key deallocate_port deallocate_from release_in release_from
    release_used release_with after_release store_release write_back remove delete
granted_port = refl

perform_all-IsGranted_example :
    IsGranted two_ports two_ports_laws
      (cluster_key (text "n") (text "c"))
      7
      (allocate_port two_ports (text "c") (text "n") (perform_all two_ports [] configured)).1.server
unfolding perform_all two_ports_laws
perform_all-IsGranted_example =
    perform_all-IsGranted two_ports two_ports_laws [] configured (text "c") (text "n") 7 refl
      granted_port

-- Two clusters get ports, and the first one gives its port back.
abbrev calls : List Call
calls =
    Call.allocate (text "a") (text "n")
    ∷ Call.allocate (text "b") (text "n")
    ∷ Call.deallocate (text "a") (text "n") 7
    ∷ []

abbrev final_cm : ConfigMap
final_cm = cm_of (perform_all two_ports calls configured).server

final_content : (perform_all two_ports calls configured).server ≡ some final_cm
unfolding perform perform_all allocate_port allocate_from get_or_create after_get with_config_map
    with_ports ports_text get_text lookup insert text_eq assign load with_allocator take_next
    next_port member save_snapshot after_snapshot after_serialize store_port found create_in decode
    encode push text cluster_key deallocate_port deallocate_from release_in release_from
    release_used release_with after_release store_release write_back remove delete
final_content = refl

final_ports : decode (ports_text two_ports final_cm) ≡ (text "n/b", 8) ∷ []
unfolding perform perform_all allocate_port allocate_from get_or_create after_get with_config_map
    with_ports ports_text get_text lookup insert text_eq assign load with_allocator take_next
    next_port member save_snapshot after_snapshot after_serialize store_port found create_in decode
    encode push text cluster_key deallocate_port deallocate_from release_in release_from
    release_used release_with after_release store_release write_back remove delete
final_ports = refl

final_load : load two_ports final_cm ≡ ok (8 ∷ [])
unfolding perform perform_all allocate_port allocate_from get_or_create after_get with_config_map
    with_ports ports_text get_text lookup insert text_eq assign load with_allocator take_next
    next_port member save_snapshot after_snapshot after_serialize store_port found create_in decode
    encode push text cluster_key deallocate_port deallocate_from release_in release_from
    release_used release_with after_release store_release write_back remove delete
final_load = refl

final_lookup : lookup {V = ℕ} (text "n/b") ((text "n/b", 8) ∷ []) ≡ some 8
unfolding lookup text_eq text
final_lookup = refl

perform_all_distinct_example : text "n/b" ≡ text "n/b"
unfolding two_ports_laws
perform_all_distinct_example =
    perform_all_distinct two_ports two_ports_laws calls configured final_cm ((text "n/b", 8) ∷ [])
      (text "n/b") (text "n/b") 8 refl final_content (ap ok final_ports) final_lookup final_lookup

perform_all_used_example : member (8 ∷ []) 8 ≡ true
unfolding two_ports_laws
perform_all_used_example =
    perform_all_used two_ports two_ports_laws calls configured final_cm ((text "n/b", 8) ∷ [])
      (8 ∷ []) (text "n/b") 8 refl final_content (ap ok final_ports) final_load final_lookup

released_port :
    (deallocate_port two_ports
      (text "c")
      (text "n")
      7
      (allocate_port two_ports (text "c") (text "n") configured).1).0
    ≡ none
unfolding allocate_port allocate_from get_or_create after_get with_config_map with_ports ports_text
    get_text lookup insert text_eq assign load with_allocator take_next next_port member
    save_snapshot after_snapshot after_serialize store_port found create_in decode encode push text
    cluster_key deallocate_port deallocate_from release_in release_from release_used release_with
    after_release store_release write_back remove delete
released_port = refl

deallocate_port-IsFreed_example :
    IsFreed two_ports two_ports_laws
      (cluster_key (text "n") (text "c"))
      (deallocate_port two_ports
        (text "c")
        (text "n")
        7
        (allocate_port two_ports (text "c") (text "n") configured).1).1.server
deallocate_port-IsFreed_example =
    deallocate_port-IsFreed two_ports two_ports_laws (text "c") (text "n") 7
      (allocate_port two_ports (text "c") (text "n") configured).1 released_port
