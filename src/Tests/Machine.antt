-- ===== src/Tests/Machine.antt =====
-- A small machine, with the process 2 running, and a platform of the device registers' layout.
use progetto_so.Base.{ℕ, ◌+◌, ◌*◌, Option, leb}
use progetto_so.Memory.{State, Store}
use progetto_so.Kernel.{Platform, Kernel}

abbrev pub board : Platform
board = record {
  cause_is_int = λ c. leb 0x8000_0000 c;
  cause_exccode_mask = 0x7fff_ffff;
  status = 0;
  command = 4;
  recv_status = 0;
  recv_command = 4;
  transm_status = 8;
  transm_command = 12;
  u_tlb_refill_handler = 0x2000_0100;
  exception_handler = 0x2000_0200;
  test = 0x2000_0300;
  device_semaphores = 0x2000_2000;
}

abbrev pub zero_state : State
zero_state = record {
  entry_hi = 0;
  cause = 0;
  status = 0x1800;
  pc_epc = 0x2000_0304;
  mie = 0;
  reg_sp = 0;
  reg_a0 = 0;
  reg_a1 = 1000;
  reg_a2 = 0;
  reg_a3 = 0;
  gpr = λ _. 0;
}

-- The store is the argument; the clock gains 50 from one reading to the next.
abbrev pub running : Store → Option ℕ → Kernel
running s current = record {
  store = s;
  process_count = 3;
  soft_block_count = 1;
  current_process = current;
  p_start = 100;
  exception_state = zero_state;
  word = λ _. 0;
  state_at = λ _. zero_state;
  support = λ _. record {
    sup_except_state = λ _. zero_state;
    sup_except_context = λ _. record { stack_ptr = 0; status = 0; pc = 0 };
  };
  passupvector = record {
    tlb_refill_handler = 0;
    tlb_refill_stack_ptr = 0;
    exception_handler = 0;
    exception_stack_ptr = 0;
  };
  clock = λ n. 200 + 50 * n;
  readings = 0;
  timer = 0;
  interval_timer = 0;
  mie = 0;
  status = 0;
}
