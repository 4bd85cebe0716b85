-- ===== src/Pci.antt =====
-- src/pci.c and pci.h: configuration mechanism #1 and the routing of the interrupt pins INTA-INTD.
-- The devices behind the configuration callbacks share one state `D`; a callback is a function on
-- it, and NULL is `none`. The arrays are functions of their index, and the guards of the code keep
-- every index in range. `pci` itself is never NULL here, and `pci_init` leaves out the call of
-- `ports_cbRegisterEx`.
pub mod Config
pub mod Counting
pub mod Irq
pub mod Level
pub mod Address
pub mod Reach
use pculator.Base.{
  ℕ, zero, suc, ◌+◌, ◌-◌, Bool, true, false, not, ◌&&◌, ◌||◌, Option, none, some, ◌==◌, ◌!=◌, ltb,
  leb, if◌then◌else◌, update, bit_and, bit_or, u8, u16, u32, not32, ◌<<<◌, ◌>>>◌,
}
use pculator.Pic.{Pics, setlevelirq}

abbrev pub irq_disabled : ℕ
irq_disabled = 0xFF

abbrev pub max_slots : ℕ
max_slots = 32

abbrev pub max_functions : ℕ
max_functions = 8

-- `PCI_FUNCTION_t`, with `udata` bound into the callbacks.
pub record Function (D : Type 0) : Type 0 where
  pub present : ℕ
  pub read : Option (D → ℕ → ℕ → ℕ × D)
  pub write : Option (D → ℕ → ℕ → ℕ → D)

-- `PCI_SLOT_t`.
pub record Slot (D : Type 0) : Type 0 where
  pub present : ℕ
  pub type : ℕ
  pub swizzle : ℕ → ℕ
  pub irq_state : ℕ → ℕ
  pub function : ℕ → Function D

-- `PCI_t`.
pub record Pci (D : Type 0) : Type 0 where
  pub config_type : ℕ
  pub config_address : ℕ
  pub pic_master : Option ℕ
  pub pic_slave : Option ℕ
  pub route_irq : ℕ → ℕ
  pub route_refcount : ℕ → ℕ
  pub slot : ℕ → Slot D

-- The bus, the interrupt controllers that it drives, and the devices.
pub record Sys (D : Type 0) : Type 0 where
  pub pci : Pci D
  pub pics : Pics
  pub dev : D

-- `active = (refcount != 0)`
abbrev pub level : ℕ → ℕ
level refcount = if refcount != 0 then 1 else 0

-- The guard of `pci_raise_irq` and `pci_lower_irq`.
abbrev pub bad_pin : ℕ → ℕ → Bool
bad_pin slot intpin = leb max_slots slot || (ltb intpin 1 || ltb 4 intpin)

-- The four bytes of `swizzle`.
abbrev pub pins : ℕ → ℕ → ℕ → ℕ → ℕ → ℕ
pins inta intb intc intd i =
    if i == 0 then inta else (if i == 1 then intb else (if i == 2 then intc else intd))

module _ {D : Type 0} where
  -- The level of one interrupt request line: 8 and above belong to the slave controller. The same
  -- lines stand in `pci_update_irq_line`, `pci_set_irq_routing` and `pci_reset`.
  unfoldable pub drive : Pci D → ℕ → ℕ → Pics → Pics
  drive p irq active s =
      if leb 8 irq
      then elim p.pic_slave [ none ↦ s | some a ↦ setlevelirq a (u8 (irq - 8)) active s ]
      else elim p.pic_master [ none ↦ s | some a ↦ setlevelirq a irq active s ]

  unfoldable pub update_irq_line : ℕ → Sys D → Sys D
  update_irq_line route_pin s =
      if leb 4 route_pin
      then s
      else let irq = s.pci.route_irq route_pin in
        if irq == irq_disabled
        then s
        else record s { pics = drive s.pci irq (level (s.pci.route_refcount route_pin)) s.pics }

  unfoldable pub slot_route_pin : Pci D → ℕ → ℕ → ℕ
  slot_route_pin p slot intpin =
      if leb max_slots slot || (ltb intpin 1 || ltb 4 intpin)
      then 0
      else let route_pin = (p.slot slot).swizzle (intpin - 1) in
        if leb 1 route_pin && leb route_pin 4 then route_pin else intpin

  -- What `memset` leaves of a slot.
  abbrev pub empty_slot : Slot D
  empty_slot = record {
    present = 0;
    type = 0;
    swizzle = λ _. 0;
    irq_state = λ _. 0;
    function = λ _. record { present = 0; read = none; write = none };
  }

  unfoldable pub register_slot : ℕ → ℕ → ℕ → ℕ → ℕ → ℕ → Pci D → Pci D
  register_slot slot type inta intb intc intd p = if leb max_slots slot then p else record p {
    slot =
        update p.slot slot
          (record empty_slot { present = 1; type = u8 type; swizzle = pins inta intb intc intd });
  }

  unfoldable pub register_device : ℕ → ℕ → Function D → Pci D → Pci D
  register_device slot function f p =
      if leb max_slots slot || leb max_functions function then p else record p {
        slot = update p.slot slot (record (p.slot slot) {
          present = 1;
          function = update (p.slot slot).function function (record f { present = 1 });
        });
      }

  -- `if ((irq != PCI_IRQ_DISABLED) && (refcount != 0))` its line goes low.
  unfoldable pub release : ℕ → ℕ → Pci D → Pics → Pics
  release irq refcount p s = if irq != irq_disabled && refcount != 0 then drive p irq 0 s else s

  unfoldable pub set_irq_routing : ℕ → ℕ → Sys D → Sys D
  set_irq_routing pin irq s =
      if ltb pin 1 || ltb 4 pin
      then s
      else update_irq_line (pin - 1) (record s {
        pics = release (s.pci.route_irq (pin - 1)) (s.pci.route_refcount (pin - 1)) s.pci s.pics;
        pci = record s.pci { route_irq = update s.pci.route_irq (pin - 1) irq };
      })

  -- The writes to `irq_state` and to `route_refcount`.
  unfoldable pub set_state : ℕ → ℕ → ℕ → Pci D → Pci D
  set_state slot i v p = record p {
    slot =
        update p.slot slot
          (record (p.slot slot) { irq_state = update (p.slot slot).irq_state i v });
  }

  unfoldable pub set_refcount : ℕ → ℕ → Pci D → Pci D
  set_refcount r v p = record p { route_refcount = update p.route_refcount r v }

  unfoldable pub raise_irq : ℕ → ℕ → Sys D → Sys D
  raise_irq slot intpin s =
      let r = slot_route_pin s.pci slot intpin in
      if bad_pin slot intpin || (s.pci.slot slot).irq_state (intpin - 1) != 0
      then s
      else if ltb r 1 || ltb 4 r
      then s
      else update_irq_line (r - 1) (record s {
        pci =
            set_refcount (r - 1) (u8 (s.pci.route_refcount (r - 1) + 1))
              (set_state slot (intpin - 1) 1 s.pci);
      })

  unfoldable pub lower_irq : ℕ → ℕ → Sys D → Sys D
  lower_irq slot intpin s =
      let r = slot_route_pin s.pci slot intpin in
      let p = set_state slot (intpin - 1) 0 s.pci in
      if bad_pin slot intpin || (s.pci.slot slot).irq_state (intpin - 1) == 0
      then s
      else if leb 1 r && leb r 4 && s.pci.route_refcount (r - 1) != 0
      then update_irq_line (r - 1)
          (record s { pci = set_refcount (r - 1) (s.pci.route_refcount (r - 1) - 1) p })
      else record s { pci = p }

  -- The rounds of the first loop of `pci_reset` from `pin` on, `n` of them.
  unfoldable pub release_from : ℕ → ℕ → Sys D → Sys D
  release_from zero pin s = s
  release_from (suc n) pin s = release_from n (pin + 1) (record s {
    pics = release (s.pci.route_irq pin) (s.pci.route_refcount pin) s.pci s.pics;
    pci = set_refcount pin 0 s.pci;
  })

  -- Its second loop.
  unfoldable pub clear_states : ℕ → Pci D → Pci D
  clear_states zero p = p
  clear_states (suc n) p =
      let q = clear_states n p in
      record q { slot = update q.slot n (record (q.slot n) { irq_state = λ _. 0 }) }

  unfoldable pub reset : Sys D → Sys D
  unfolding release_from
  reset s =
      let t = release_from 4 0 s in
      record t { pci = record (clear_states max_slots t.pci) { config_address = 0 } }

  -- `swizzle` and `irq_state` of every slot are zero, and no callback is set.
  unfoldable pub init : ℕ → Option ℕ → Option ℕ → Pci D
  init config_type pic_master pic_slave = record {
    config_type = config_type;
    config_address = 0;
    pic_master = pic_master;
    pic_slave = pic_slave;
    route_irq = λ pin. if ltb pin 4 then irq_disabled else 0;
    route_refcount = λ _. 0;
    slot = λ _. empty_slot;
  }
