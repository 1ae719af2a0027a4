-- ===== src/Trap.antt =====
-- The interrupts that the kernel handles: src/kernel/interrupt/idt.c, src/kernel/interrupt/spurious.c,
-- src/kernel/arch/pit.c and src/kernel/device/keyboard.c.
pub mod Timer
pub mod Vectors
pub mod Handler
pub mod Keeps
