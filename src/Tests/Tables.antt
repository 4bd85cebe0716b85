-- ===== src/Tests/Tables.antt =====
-- A descriptor table in the memory of a machine of src/memory.c, as src/cpu/cpuhelper.h reads it.
use pculator.Base.{ℕ, ◌≡◌, refl, some, [], arith, update}
use pculator.Memory.{
  desc_clear, desc_read_u8, desc_read_u16_direct, lookup_map, lookup_map_range,
  access_stays_on_page,
}
use pculator.Memory.Cache.{wrcache_has_overlap, wrcache_read}
use pculator.Memory.Linear.{read_phys_u8, read_linear_sized, access_can_direct, read_direct}
use pculator.Memory.Paging.{Machine, paging_enabled}
use pculator.Memory.Access.{cpu_read_sys, cpu_readw_sys}
use pculator.Cpu.Segment.{Processor, Eflags, machine_bus, load_segdesc}
use pculator.Cpu.Segment.Registers.{commit_segdesc}
use pculator.Cpu.Segment.Registers.Encoding.{Encodes, commit_segdesc_lem}

-- The bytes of a code segment of level 3 at address 24: the base 0x12345678, the limit 0xABCDE in
-- pages, 32 bits.
abbrev bytes : ℕ → ℕ
bytes =
    update
      (update
        (update
          (update (update (update (update (update (λ i. 0) 24 0xDE) 25 0xBC) 26 0x78) 27 0x56) 28
            0x34)
          29 0xFA)
        30 0xCA)
      31 0x12

-- 64 KB of memory, without paging.
abbrev machine : Machine ℕ
machine = record {
  cpu = record {
    a20_gate = 1;
    protected_mode = 1;
    cr0 = 1;
    cr2 = 0;
    cr3 = 0;
    startcpl = 0;
    nowrite = 0;
    doexception = 0;
    exceptionval = 0;
    exceptionerr = 0;
    tlb = λ i. record {
      way = λ w. record { tag = 0; phys_base = 0; pte_addr = 0; flags = 0 };
      mru = 0;
    };
  };
  memory = record {
    mem = λ i. record {
      start = 0;
      size = 0x10000;
      desc = record desc_clear {
        read = some (record { buffer = 0; base = 0 });
        write = some (record { buffer = 0; base = 0 });
      };
      used = 1;
    };
    lookup_external = λ j. 0;
    lookup_internal = λ j. 0xFF;
    decode = λ j. 0;
    wrcache = [];
    ram = λ b. bytes;
    dev = 0;
  };
}

abbrev flags : Eflags
flags = record {
  cf = 0;
  pf = 0;
  af = 0;
  zf = 0;
  sf = 0;
  tf = 0;
  ifl = 1;
  df = 0;
  of = 0;
  iopl = 0;
  nt = 0;
  rf = 0;
  v86f = 0;
  acf = 0;
  idf = 0;
}

abbrev processor : Processor (Machine ℕ)
processor = record {
  bus = machine;
  gdtr = 0;
  gdtl = 31;
  ldtr = 0;
  ldtl = 0;
  idtr = 0;
  idtl = 0;
  trbase = 0;
  trlimit = 103;
  tr_selector = 0;
  cpl = 0;
  protected_mode = 1;
  isoper32 = 1;
  eflags = flags;
  segregs = λ _. 0;
  segcache = λ _. 0;
  segis32 = λ _. 0;
  seglimit = λ _. 0;
}

machine-Encodes : Encodes machine_bus machine 24 0x12345678 0xABCDE 0xFA 0xC
unfolding machine_bus cpu_read_sys cpu_readw_sys read_linear_sized access_can_direct
    access_stays_on_page lookup_map lookup_map_range wrcache_has_overlap read_direct
    desc_read_u16_direct read_phys_u8 wrcache_read desc_read_u8 paging_enabled
machine-Encodes = record {
  limit_low = refl;
  base_low = refl;
  base_mid = refl;
  base_high = refl;
  access_byte = refl;
  flags_limit = refl;
  base_top = refl;
}

commit_segdesc_lem_example :
    let (d, q) = load_segdesc machine_bus 24 processor in
    let r = commit_segdesc machine_bus 3 0x1B d q in
    (r.segregs 3 ≡ 0x1B)
    × (r.segcache 3 ≡ 0x12345678)
    × (r.segis32 3 ≡ 1)
    × (r.seglimit 3 ≡ 0xABCDEFFF)
    × (d.access ≡ 0xFA)
commit_segdesc_lem_example =
    commit_segdesc_lem machine_bus 24 0x12345678 0xABCDE 0xFA 0xC processor (omega arith)
      (omega arith) (omega arith) (omega arith) (omega arith) machine-Encodes 3 0x1B
