-- ===== src/Clock.antt =====
-- The wall clock: src/kernel/arch/cmos.c and src/kernel/time/rtc.c.
pub mod Cmos
pub mod Rtc
pub mod Delay
pub mod Calendar
