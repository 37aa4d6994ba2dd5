-- ===== src/Tests/Nucleus.antt =====
-- The theorems on the nucleus and on the log buffer at a concrete machine.
use progetto_so.Utils.{memcpy, memcpy_lem}
use progetto_so.Base.{◌+◌, ◌≤◌, ◌⊎◌, inl}
use progetto_so.Base.{ℕ, ◌<◌, ◌≡◌, refl, some, none, [], ◌∷◌, arith}
use progetto_so.ListX.{Links}
use progetto_so.ListX.Rings.{Linked, take_out}
use progetto_so.Memory.{State, p_list, ready_queue, with_links}
use progetto_so.Kernel.{Kernel, ldst, timeslice, update_cpu_time, scheduler}
use progetto_so.Kernel.Time.{time_of, update_cpu_time-add}
use progetto_so.Kernel.Schedule.{Idles, scheduler-dispatch, scheduler-Idles}
use progetto_so.Syscalls.Queries.{get_cpu_time}
use progetto_so.Syscalls.Times.{get_cpu_time-update_cpu_time}
use progetto_so.Interrupts.{acknowledge, scan_bitmap}
use progetto_so.Interrupts.Devices.{
  Acknowledged, Scanned, acknowledge-device_index, scan_bitmap-Scanned,
}
use progetto_so.Initial.{boot, main}
use progetto_so.Initial.First.{Started, main-Started}
use progetto_so.Initial.Boot.{Booted, boot-Booted}
use progetto_so.Klog.{Klog, klog_print, klog_print_dec}
use progetto_so.Klog.Bounds.{IsInside, Safe, Printed, klog_print-Safe, klog_print_dec-Printed}
use progetto_so.Tests.Data.{
  blank, queued, queued_rings, queued-Linked, one_head, one_head_rings, one_head-Linked,
}
use progetto_so.Tests.Machine.{board, running}

update_cpu_time-add_example :
    time_of 2 (update_cpu_time (update_cpu_time (running blank (some 2)))) ≡ 150
update_cpu_time-add_example =
    update_cpu_time-add (running blank (some 2)) 2 refl (omega arith) (omega arith)

get_cpu_time-update_cpu_time_example :
    (x : State) × (j : Kernel) × (get_cpu_time (running blank (some 2)) ≡ some (ldst x, j))
    × (time_of 2 (update_cpu_time j) ≡ 250)
get_cpu_time-update_cpu_time_example = get_cpu_time-update_cpu_time (running blank (some 2)) 2 refl

scheduler-dispatch_example :
    (t : Links) × (scheduler (running queued none)
      ≡ some (
        ldst (queued.pcb 7).p_s,
        record (running queued none) {
          store = with_links queued t;
          current_process = some 7;
          timer = timeslice;
          p_start = 200;
          readings = 1;
        },
      ))
    × Linked t (take_out (p_list 7) ready_queue (p_list 4 ∷ []) queued_rings)
scheduler-dispatch_example =
    scheduler-dispatch (running queued none) queued_rings queued-Linked refl 7 (4 ∷ []) refl

scheduler-Idles_example :
    Idles
      (running (with_links blank (one_head ready_queue)) none)
      (one_head_rings ready_queue)
      (one_head-Linked ready_queue)
      refl
      (scheduler (running (with_links blank (one_head ready_queue)) none))
scheduler-Idles_example =
    scheduler-Idles (running (with_links blank (one_head ready_queue)) none)
      (one_head_rings ready_queue) (one_head-Linked ready_queue) refl refl (omega arith)
      (omega arith)

acknowledge-device_index_example :
    Acknowledged board 7 3 (running blank none) (acknowledge board 7 3 (running blank none))
acknowledge-device_index_example =
    acknowledge-device_index board 7 3 (running blank none) refl refl refl (omega arith)
      (omega arith) (omega arith)

scan_bitmap-Scanned_example : Scanned 12 0 8 (scan_bitmap 8 0 12)
scan_bitmap-Scanned_example = scan_bitmap-Scanned 8 0 12

-- The last position of the buffer.
abbrev log_end : Klog
log_end = record { line_index = 63; char_index = 41; buffer = λ _ _. 0 }

log_end-IsInside : IsInside log_end
log_end-IsInside = record { line = omega arith; char = omega arith }

klog_print-Safe_example : Safe log_end (klog_print (b'o' ∷ b'k' ∷ b'\n' ∷ []) log_end)
klog_print-Safe_example = klog_print-Safe (b'o' ∷ b'k' ∷ b'\n' ∷ []) log_end log_end-IsInside

klog_print_dec-Printed_example : Printed log_end (klog_print_dec 4096 log_end)
klog_print_dec-Printed_example = klog_print_dec-Printed 4096 log_end (omega arith) log_end-IsInside

boot-Booted_example : Booted board (boot board (running queued (some 2)))
boot-Booted_example = boot-Booted board (running queued (some 2))

main-Started_example :
    Started board (running queued (some 2)) (main board (running queued (some 2)))
main-Started_example = main-Started board (running queued (some 2))

memcpy_lem_example :
    ((memcpy 1000 2000 64 (λ a. a)).0 ≡ 1000)
    × ((i : ℕ) → i < 64 → (memcpy 1000 2000 64 (λ a. a)).1 (1000 + i) ≡ 2000 + i)
    × ((a : ℕ) → (a < 1000) ⊎ (1064 ≤ a) → (memcpy 1000 2000 64 (λ a. a)).1 a ≡ a)
memcpy_lem_example =
    memcpy_lem 1000 2000 64 (λ a. a) (omega arith) (omega arith) (inl (omega arith))
