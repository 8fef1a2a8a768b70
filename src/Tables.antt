-- ===== src/Tables.antt =====
-- The tables of the processor: the interrupt descriptor table (kernel/kernel/idt.c), the segment
-- descriptors of `initSeg` (kernel/kernel/kvm.c) and their formats (kernel/include/x86/memory.h).
pub mod Gates
pub mod Segments
pub mod Registers
