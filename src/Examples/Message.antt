-- ===== src/Examples/Message.antt =====
-- A message of a program whose process has the identifier 3.
use almeida_os.Base.{ℕ, refl, true, false, some, List, [], ◌∷◌, arith}
use almeida_os.Buddy.{make_ref}
use almeida_os.Maths.{ilog2, round, ilog2_start}
use almeida_os.Console.Serial.{is_transmit_empty}
use almeida_os.Syscall.{System}
use almeida_os.Libc.{umain_message}
use almeida_os.Libc.Message.{Announces, umain_message_lem}
use almeida_os.Examples.Devices.{printer, screen-HoldsLog}
use almeida_os.Examples.Calls.{system, memory-IsKernelMemory}

abbrev ten_ready : List ℕ → List ℕ
ten_ready rest = 32 ∷ 32 ∷ 32 ∷ 32 ∷ 32 ∷ 32 ∷ 32 ∷ 32 ∷ 32 ∷ 32 ∷ rest

abbrev hundred_ready : List ℕ
hundred_ready = ten_ready (
    ten_ready (
      ten_ready
        (ten_ready (ten_ready (ten_ready (ten_ready (ten_ready (ten_ready (ten_ready [])))))))))

abbrev running_system : System
running_system = record system {
  scheduler = record {
    initialised = true;
    run_queue = record { curr = some 3; tasks = 3 ∷ []; need_resched = false };
  };
  printer = record printer { status = hundred_ready };
  rtc_curr_unixtime = 1640000000000;
}

message_example :
    Announces [] 3 1640000000 running_system
      (umain_message (λ _. 0) (λ _. 0) 128 266240 running_system)
unfolding make_ref ilog2 round ilog2_start is_transmit_empty
message_example =
    umain_message_lem [] (λ _. 0) (λ _. 0) 128 266240 3 running_system refl (omega arith)
      (omega arith) (omega arith) (omega arith) memory-IsKernelMemory (omega arith) refl
      (omega arith) (omega arith) screen-HoldsLog
