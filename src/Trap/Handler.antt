-- ===== src/Trap/Handler.antt =====
-- `interrupt_handler` of src/kernel/interrupt/idt.c with the handlers that it calls.
use almeida_os.Base.{true, false, ◌==◌, if◌then◌else◌, Run, ok, bug, ◌>>=◌}
use almeida_os.BitOps.{test_bit}
use almeida_os.Pic.{Pic, pic_mask_irq, pic_unmask_irq, pic_send_eoi, pic_read_isr}
use almeida_os.Task.Process.{Machine}
use almeida_os.Task.Scheduler.{schedule}
use almeida_os.Trap.Timer.{Kernel, pit_timer_handle_irq}

unfoldable pub spurious_irq_enable : Kernel → Kernel
spurious_irq_enable k = record k { pic = pic_unmask_irq 7 k.pic }

unfoldable pub spurious_handle_irq : Pic → Pic
spurious_handle_irq p = if test_bit 7 (pic_read_isr p) then pic_send_eoi 7 p else p

unfoldable pub keyboard_enable : Kernel → Kernel
keyboard_enable k = record k { pic = pic_unmask_irq 1 k.pic }

-- The event and its code are only printed.
unfoldable pub keyboard_handle_irq : Pic → Pic
keyboard_handle_irq p = pic_send_eoi 1 p

-- the end of the interrupt of the timer: a change of tasks if one is due, and the line unmasked
unfoldable pub resume : Kernel → Machine → Run (Kernel × Machine)
resume k mc = do
  (s, mc') ← elim k.scheduler.run_queue.need_resched [
    | true ↦ schedule k.scheduler mc
    | false ↦ ok (k.scheduler, mc)
  ]
  ok (record k { scheduler = s; pic = pic_unmask_irq 0 k.pic }, mc')

-- The exceptions of the processor print the registers and stop it, which is the halt.
unfoldable pub interrupt_handler : Kernel → Machine → Run (Kernel × Machine)
interrupt_handler k mc = elim (mc.int_frame.trap_number == 39) [
  | true ↦ ok (record k { pic = pic_unmask_irq 7 (spurious_handle_irq (pic_mask_irq 7 k.pic)) }, mc)
  | false ↦ elim (mc.int_frame.trap_number == 32) [
    | true ↦ resume (pit_timer_handle_irq (record k { pic = pic_mask_irq 0 k.pic })) mc
    | false ↦ elim (mc.int_frame.trap_number == 33) [
      | true ↦
          ok
            (record k { pic = pic_unmask_irq 1 (keyboard_handle_irq (pic_unmask_irq 1 k.pic)) }, mc)
      | false ↦ bug
    ]
  ]
]
