-- ===== src/Cpu.antt =====
-- src/cpu/cpu.c and src/cpu/cpuhelper.h: the flags and the arithmetic of one instruction, shifts and
-- rotations, division, and the check for an interrupt between two instructions. The code has most of
-- these routines three times, for 8, 16 and 32 bits; here a routine takes the width.
pub mod Flags
pub mod Alu
pub mod Shift
pub mod Divide
pub mod Interrupt
pub mod Segment
