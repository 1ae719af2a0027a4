-- ===== src/Trap/Keeps.antt =====
-- What an interrupt of the timer does, by src/kernel/interrupt/idt.c.
use almeida_os.Base.{
  ℕ, ◌%◌, ◌<◌, ◌≡◌, refl, ap, ◌∙◌, inl, inr, Bool, true, false, ◌&&◌, ◌||◌, not, Option, none, some,
  List, [], ◌∷◌, arith, leb, ◌==◌, Bool-cases, Run, ok, ◌>>=◌,
}
use almeida_os.Word.{add64}
use almeida_os.Pic.{Pic, is_masked, pic_mask_irq, pic_unmask_irq, pic_send_eoi}
use almeida_os.Pic.Laws.{is_masked-pic_mask_irq, is_masked-pic_unmask_irq}
use almeida_os.Task.Process.{Machine}
use almeida_os.Task.Scheduler.{RunQueue, Scheduler, schedule, scheduler_tick, is_none}
use almeida_os.Task.RoundRobin.{ready, schedule_lem}
use almeida_os.Trap.Timer.{Kernel, pit_timer_handle_irq}
use almeida_os.Trap.Handler.{interrupt_handler, resume}

-- A scheduler that has been set up always returns.
schedule_total :
    (curr : Option ℕ) (tasks : List ℕ) (b : Bool) (mc : Machine)
    → (s : Scheduler) × (mc' : Machine) × (schedule (ready curr tasks b) mc ≡ ok (s, mc'))
schedule_total curr [] b mc = (_, _, (schedule_lem curr b mc).0)
schedule_total (some t) (x ∷ []) b mc = (_, _, (schedule_lem (some t) b mc).1 t x)
schedule_total none (x ∷ []) b mc = (_, _, (schedule_lem none b mc).2 x)
schedule_total curr (x ∷ y ∷ rest) b mc = (_, _, (schedule_lem curr b mc).3 x y rest)

tick_keeps :
    (j : ℕ) (s : Scheduler) → s.initialised ≡ true → (scheduler_tick j s).initialised ≡ true
unfolding scheduler_tick
tick_keeps j s h = elim (Bool-cases (is_none s.run_queue.curr || j % 10 == 0)) [
  | inl e ↦ rw (scheduler_tick, h, e) refl
  | inr e ↦ rw (scheduler_tick, h, e) refl
]

resume_total :
    (k : Kernel) (mc : Machine)
    → k.scheduler.initialised ≡ true
    → (s : Scheduler) × (mc' : Machine) × (resume k mc
        ≡ ok (record k { scheduler = s; pic = pic_unmask_irq 0 k.pic }, mc'))
unfolding resume
resume_total k mc h = by_need k.scheduler.run_queue.need_resched refl
  where
    next : Run (Scheduler × Machine) → Run (Kernel × Machine)
    next r = r >>= λ x. ok (record k { scheduler = x.0; pic = pic_unmask_irq 0 k.pic }, x.1)

    choose : Bool → Run (Scheduler × Machine)
    choose b = elim b [ true ↦ schedule k.scheduler mc | false ↦ ok (k.scheduler, mc) ]

    by_need :
        (b : Bool)
        → k.scheduler.run_queue.need_resched ≡ b
        → (s : Scheduler) × (mc' : Machine) × (resume k mc
            ≡ ok (record k { scheduler = s; pic = pic_unmask_irq 0 k.pic }, mc'))
    by_need false e = (k.scheduler, mc, ap (λ b. next (choose b)) e)
    by_need true e =
        let q : RunQueue = k.scheduler.run_queue in
        let (s, mc', run) = schedule_total q.curr q.tasks q.need_resched mc in
        let same : schedule k.scheduler mc ≡ schedule (ready q.curr q.tasks q.need_resched) mc =
          λ i. schedule (record { initialised = h i; run_queue = q }) mc in
        (s, mc', ap (λ b. next (choose b)) e ∙ ap next (same ∙ run))

-- the end of an interrupt leaves the masks
eoi_keeps : (m n : ℕ) (p : Pic) → is_masked m (pic_send_eoi n p) ≡ is_masked m p
unfolding pic_send_eoi
eoi_keeps m n p = elim (Bool-cases (leb 8 n)) [
  | inl e ↦ rw (pic_send_eoi, e) refl
  | inr e ↦ rw (pic_send_eoi, e) refl
]

timer_masks :
    (m : ℕ) (p : Pic)
    → m < 16
    → is_masked m (pic_unmask_irq 0 (pic_send_eoi 0 (pic_mask_irq 0 p)))
      ≡ not (m == 0) && is_masked m p
timer_masks m p h =
    is_masked-pic_unmask_irq m 0 _ h (omega arith)
    ∙ ap (λ t. not (m == 0) && t) (eoi_keeps m 0 _ ∙ is_masked-pic_mask_irq m 0 p h (omega arith))
    ∙ absorb (m == 0) (is_masked m p)
  where
    absorb : (a b : Bool) → (not a && (a || b)) ≡ (not a && b)
    absorb true b = refl
    absorb false b = refl

pub interrupt_handler_timer :
    (k : Kernel) (mc : Machine) (m : ℕ)
    → mc.int_frame.trap_number ≡ 32
    → k.scheduler.initialised ≡ true
    → m < 16
    → (k' : Kernel) × (mc' : Machine) × (interrupt_handler k mc ≡ ok (k', mc'))
      × (k'.jiffies ≡ add64 k.jiffies 1)
      × (k'.rtc_curr_unixtime ≡ add64 k.rtc_curr_unixtime 1)
      × (is_masked m k'.pic ≡ not (m == 0) && is_masked m k.pic)
unfolding interrupt_handler pit_timer_handle_irq
interrupt_handler_timer k mc m trap init h =
    let other : (mc.int_frame.trap_number == 39) ≡ false = rw trap refl in
    let timer : (mc.int_frame.trap_number == 32) ≡ true = rw trap refl in
    let k0 : Kernel = record k { pic = pic_mask_irq 0 k.pic } in
    let ticked : Kernel = pit_timer_handle_irq k0 in
    let (s, mc', run) = resume_total ticked mc (tick_keeps (add64 k.jiffies 1) k.scheduler init) in
    (
      record ticked { scheduler = s; pic = pic_unmask_irq 0 ticked.pic },
      mc',
      rw (interrupt_handler, other, timer) run,
      refl,
      refl,
      timer_masks m k.pic h,
    )
