-- ===== src/Lib.antt =====
-- PCulator, a PC emulator in C: a model of its interrupt controllers, its PCI bus, its memory and
-- paging, its table of I/O ports, its timer, serial ports, keyboard port and flash chip, a byte
-- queue, and of its processor the arithmetic and the segments with their privilege checks.
--
-- A device asserts an interrupt pin of its PCI slot; the bus counts the asserting pins per routed
-- line and drives an input of the slave or of the master interrupt controller; a pending input of
-- the slave asks for line 2 of its master; and between two instructions the processor asks the
-- master for the next vector. The processor's instructions compute results and status flags.
--
-- Pic: src/chipset/i8259.c. A store maps addresses to controllers, since master and slave point at
-- one another. `write` is i8259_write, `nextintr` i8259_nextintr, `setlevelirq` i8259_setlevelirq,
-- and so on; the other names are parts of these. Pic/Priority is about acknowledging, Pic/Cascade
-- and Pic/Writes about the line between the two controllers, Pic/Programming about the
-- initialisation words, and Pic/Ends about the end of an interrupt.
--
-- Pci: src/pci.c. `raise_irq` is pci_raise_irq, `set_irq_routing` pci_set_irq_routing, and so on;
-- Pci/Config has the configuration ports, Pci/Address the bytes of their address register.
-- Pci/Counting, Pci/Irq, Pci/Level and Pci/Reach are about the reference counts, the level of the
-- lines, and sequences of calls. The configuration callbacks of the devices are parameters of the
-- model: functions on a state that the devices share, so that a callback that changes the routing
-- of the interrupts itself, as that of a bridge may, is not covered.
--
-- Cpu: src/cpu/cpu.c and src/cpu/cpuhelper.h. The C code has most routines three times, for 8, 16
-- and 32 bits; here a routine takes the width. Cpu/Flags has the status flags, Cpu/Alu the
-- arithmetic and logic, Cpu/Shift the shifts and rotations of op_grp2_8, op_grp2_16 and op_grp2_32,
-- Cpu/Divide part of op_grp3_8, op_grp3_16 and op_grp3_32, and Cpu/Interrupt the function
-- cpu_interruptCheck.
--
-- Cpu/Segment: src/cpu/cpuhelper.h, the descriptors of protected mode. Cpu/Segment/Validate has
-- the checks of the targets of returns, gates, calls and task switches and of the stacks
-- (`validate_return_cs` is cpu_validate_return_cs, and so on): a check comes to a verdict on the
-- descriptor, which `settle` turns into the exception and the result. Cpu/Segment/Registers has
-- the loading of segment registers (`putsegreg`, `commit_segdesc`), what a return to an outer
-- level leaves of them, and the flags that `iret` restores. The interface `Bus` is what they use
-- of memory.c; it is filled by `machine_bus`, the machine of Memory, and by a table of bytes in
-- the tests (Tests/Tables has a descriptor in the memory of the machine).
--
-- Uart: src/chipset/uart.c, together with the interrupt controllers that it drives; the callbacks
-- may change the whole system. Uart/Line is about the interrupt line, Uart/Serial about the bytes.
--
-- Pit: src/chipset/i8253.c. Pit/Program is about programming a counter and reading it back, Pit/Tick
-- about the rate of the interrupts, Pit/Others about the rounds for the other two counters. A signed
-- counter is kept as its 32 bits.
--
-- Flash: src/chipset/intel_flash.c. Flash/Boot is about the protected block, Flash/Commands about
-- the program command.
--
-- Keyboard: src/input/kbc_at_device.c, with Keyboard/Answer about the answer to a command.
--
-- Fifo: src/disk/fifo.c, a queue of bytes in a ring. `put` is fifo_write, `take` fifo_read, `clear`
-- fifo_reset and `make` fifo_init; whether an allocation succeeds is an argument. Fifo/Queue is
-- about the ring, Fifo/Order about the bytes as a list.
--
-- Base has the Boolean tests, arrays as functions, machine words and the bits of a number. Tests
-- applies the definitions and the theorems to concrete inputs.
--
-- Numbers are natural numbers; the wrap-around of a C type is written out as a remainder. Loops run
-- over a number of rounds that the code fixes (eight lines, four pins, 32 slots, a masked count), so
-- that no fuel is needed.
--
-- Memory: src/memory.c. The parent has the table of regions and the reads and writes through one
-- region; Memory/Map the mappings (`mapping_enable` is memory_mapping_enable), Memory/Cache the
-- write cache of an instruction, Memory/Linear accesses at a physical address, Memory/Paging the
-- page walk and the translation cache (`translate_page`), Memory/Access the functions that the
-- processor calls and the decode states of the pages. The loops over pages and bytes are
-- recursions on their count. The page tables are functions on all numbers, where the code has
-- arrays of 1 << 20 entries: what a region that ends beyond the address space writes past them is
-- not seen. Memory/Map/Mappings is about enabling and moving a mapping, with Memory/Map/Tables,
-- Slots, Owned and Outcome. The callbacks of devices are functions on a shared state and do not
-- reach into the tables. The processor is the fields of CPU_t that memory.c uses.
--
-- Ports: src/ports.c. `cb_register_ex` is ports_cbRegisterEx, `getportmap` the choice of a slot,
-- which Ports/Table and Ports/Handlers are about; Ports/Reached has the tables that can come about.
-- The devices behind the handlers share one state, and `searched` is lastportmap and one.
--
-- Timing: src/timing.c, with the clock as an argument. Timing/Loop is about one pass of
-- `timing_loop`, Timing/CatchUp about how the timers keep up. A callback is a parameter; the
-- properties are about callbacks that leave the timers and the clock alone.
--
-- Not modelled: the decoding and execution of instructions, task switches, far calls and returns
-- and the entry of an interrupt, which use the modelled checks, the other devices of the chip set,
-- disks, SCSI, network, audio and video, the floating point unit, the host and the frontends, and
-- the libraries under third_party. Of src/timing.c the two operations that compute an interval in
-- floating point are left out. Debug output and the registration of I/O handlers by the devices
-- are left out of the modelled functions.
pub mod Base
pub mod Pic
pub mod Pci
pub mod Cpu
pub mod Fifo
pub mod Flash
pub mod Keyboard
pub mod Memory
pub mod Pit
pub mod Ports
pub mod Timing
pub mod Uart
pub mod Tests
