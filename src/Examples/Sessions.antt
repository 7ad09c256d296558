-- ===== src/Examples/Sessions.antt =====
-- src/txd_spdk.c from empty lists, and the program of src/txd_debugging.c.
use tx_driver.Api.{main}
use tx_driver.Api.Untouched.{IsKept}
use tx_driver.Api.Program.{main-releases}
use tx_driver.Base.{ℕ, ◌≡◌, refl, ok, fault, List, [], ◌∷◌, arith, replicate, Returns}
use tx_driver.Examples.{generous, bit_heads, blank}
use tx_driver.Examples.Entry.{start}
use tx_driver.Examples.Transfers.{Store, one_store, one_store_serves}
use tx_driver.Malloc.{libc, obtain}
use tx_driver.Ondisk.{chk_txd_sb, txd_success, txd_fail}
use tx_driver.Ondisk.Layout.{from_bytes}
use tx_driver.Spdk.Cleanup.{Released}
use tx_driver.Spdk.Held.{empty}
use tx_driver.Spdk.Probe.{
  spdk_init, spdk_alloc_qpair, spdk_free, cleanup, attach_all, attach_cb, register_all, register_ns,
  check_probe,
}
use tx_driver.Spdk.Registry.{controllers_of, namespaces_of, push_all, active_of, active_from}
use tx_driver.Spdk.Doomed.{second_session-faults}
use tx_driver.Spdk.Probe.{free_namespaces, free_controllers}
use tx_driver.Spdk.State.{follow}
use tx_driver.Malloc.{give_back, take_back}
use tx_driver.Spdk.Session.{
  Session, opened, called, init, alloc, session-IsSound, session-cleanup, empty-IsSound,
}
use tx_driver.Spdk.Sound.{IsSound}
use tx_driver.Spdk.Startup.{Finds, Started, startup-Started}
use tx_driver.Spdk.State.{Driver, NsEntry, Qpair, is_live, on_memory, first_namespace}

-- The device found, and then its queue pair made.
abbrev pub entry : Qpair → NsEntry
entry q = record { addr = 2; ctrlr = 1; ns = 1; qpair = q }

abbrev pub entered : Qpair → Driver Store
entered q = record start {
  memory = record {
    allocated_mem_size = 0;
    live =
        record { addr = 2; bytes = 32; source = libc }
        ∷ record { addr = 1; bytes = 1040; source = libc }
        ∷ [];
    serial = 3;
  };
  g_controllers = record { addr = 1; ctrlr = 1 } ∷ [];
  g_namespaces = entry q ∷ [];
}

abbrev pub found_at : Driver Store
found_at = entered Qpair.unset

pub start_found : spdk_init one_store generous start ≡ ok txd_success found_at
unfolding spdk_init attach_all attach_cb register_all register_ns check_probe on_memory
    first_namespace is_live obtain
start_found = refl

abbrev pub with_queue : Driver Store
with_queue = entered (Qpair.at 7)

pub start_queued : spdk_alloc_qpair one_store generous found_at ≡ ok txd_success with_queue
unfolding spdk_alloc_qpair on_memory first_namespace is_live obtain
start_queued = refl

pub start-Finds : (s : Store) → Finds one_store generous (record start { device = s }) 1 []
unfolding active_of active_from
start-Finds s = record { dev = s; probed = refl; active = λ e. cc; makes = λ e ctrlr. (7, refl) }

two_calls : Session one_store generous 4 start with_queue
two_calls = called (called opened (init start_found)) (alloc 0 start_queued)

session-IsSound_example : IsSound one_store generous with_queue
session-IsSound_example =
    session-IsSound one_store generous 4 (empty-IsSound one_store generous 4 start refl refl empty)
      two_calls

session-cleanup_example :
    Returns
      (λ _ d''.
        (d''.memory.allocated_mem_size ≡ with_queue.memory.allocated_mem_size)
        × (d''.g_namespaces ≡ with_queue.g_namespaces)
        × (d''.g_controllers ≡ with_queue.g_controllers)
        × Released one_store generous with_queue.device d''
        × (spdk_alloc_qpair one_store generous d'' ≡ fault)
        × (spdk_free one_store generous d'' ≡ fault)
        × (cleanup one_store generous d'' ≡ fault))
      (cleanup one_store generous with_queue)
session-cleanup_example =
    session-cleanup one_store generous 4 (entry (Qpair.at 7)) [] refl refl empty two_calls refl

startup-Started_example : Started one_store generous start (1 ∷ []) (active_of one_store (1 ∷ []))
startup-Started_example =
    startup-Started one_store generous start 1 [] (λ serial bytes. refl) (start-Finds start.device)
      refl refl empty

abbrev zeros : List ℕ
zeros = replicate 64 0

abbrev unformatted_start : Driver Store
unformatted_start = record start { device = record { stored = zeros; fetched = []; polls = 0 } }

zeros_refused_here : chk_txd_sb (from_bytes zeros) 1024 ≡ txd_fail
unfolding chk_txd_sb from_bytes
zeros_refused_here = refl

pub serves-IsKept : IsKept one_store (λ dev. one_store_serves.stored dev)
serves-IsKept = record { probe = λ d. refl; alloc = λ d ctrlr. refl; detach = λ d ctrlr. refl }

main-releases_example :
    Returns
      (λ r d'.
        (r ≡ 0)
        × (d'.memory.allocated_mem_size ≡ unformatted_start.memory.allocated_mem_size)
        × (namespaces_of d'.g_namespaces ≡ push_all (active_of one_store (1 ∷ [])) [])
        × (controllers_of d'.g_controllers ≡ push_all (1 ∷ []) [])
        × ((dev : Store) × (q : ℕ) × Released one_store generous
              (one_store.free_io_qpair dev q).1
              d')
        × (spdk_alloc_qpair one_store generous d' ≡ fault))
      (main one_store generous 4 bit_heads blank 0 unformatted_start)
main-releases_example =
    main-releases one_store generous 4 bit_heads blank 0
      (record { granted = λ src serial bytes. refl }) one_store_serves serves-IsKept
      unformatted_start 1 [] (λ ns. zeros) (λ ns. []) (λ dev q. omega arith)
      (start-Finds unformatted_start.device) refl refl empty (omega arith) (λ ns. refl) (λ ns. refl)
      (λ ns. zeros_refused_here)

-- The driver after `cleanup`, and after a second `spdk_init`.
abbrev cleaned : Driver Store
cleaned = record with_queue { memory = record { allocated_mem_size = 0; live = []; serial = 3 } }

abbrev found_again : Driver Store
found_again = record cleaned {
  memory = record {
    allocated_mem_size = 0;
    live =
        record { addr = 4; bytes = 32; source = libc }
        ∷ record { addr = 3; bytes = 1040; source = libc }
        ∷ [];
    serial = 5;
  };
  g_controllers = record { addr = 3; ctrlr = 1 } ∷ cleaned.g_controllers;
  g_namespaces = record { addr = 4; ctrlr = 1; ns = 1; qpair = Qpair.unset } ∷ cleaned.g_namespaces;
}

first_cleanup : cleanup one_store generous with_queue ≡ ok tt cleaned
unfolding cleanup free_namespaces free_controllers follow is_live on_memory give_back take_back
first_cleanup = refl

second_found : spdk_init one_store generous cleaned ≡ ok txd_success found_again
unfolding spdk_init attach_all attach_cb register_all register_ns check_probe on_memory
    first_namespace is_live obtain
second_found = refl

second_session-faults_example : cleanup one_store generous found_again ≡ fault
second_session-faults_example =
    second_session-faults one_store generous 4 (entry (Qpair.at 7)) [] refl refl empty two_calls
      refl first_cleanup (called opened (init second_found))
