-- ===== src/Tables/Gates.antt =====
-- kernel/kernel/idt.c. The entry points are labels of doIrq.S: their addresses are a parameter.
use oslab_nju.Prelude.{
  ℕ, zero, suc, ◌+◌, ◌*◌, ◌/◌, ◌%◌, ◌^◌, ◌<◌, ◌≡◌, Bool, leb, ltb, ◌==◌, if◌then◌else◌, arith, ◌&&◌,
  ◌||◌,
}
use oslab_nju.Kernel.Process.{kernel_sel}

pub record GateDescriptor : Type 0 where
  pub offset_15_0 : ℕ
  pub segment : ℕ
  pub pad0 : ℕ
  pub kind : ℕ
  pub system : ℕ
  pub privilege_level : ℕ
  pub present : ℕ
  pub offset_31_16 : ℕ

abbrev pub Gates : Type 0
Gates = ℕ → GateDescriptor

pub record Entries : Type 0 where
  pub irq_empty : ℕ
  pub irq_g_protect_fault : ℕ
  pub irq_syscall : ℕ
  pub irq0 : ℕ
  pub irq1 : ℕ
  pub vec : ℕ → ℕ

abbrev pub interrupt_gate_32 : ℕ
interrupt_gate_32 = 0xe

abbrev pub trap_gate_32 : ℕ
trap_gate_32 = 0xf

abbrev pub dpl_kern : ℕ
dpl_kern = 0

abbrev pub dpl_user : ℕ
dpl_user = 3

abbrev pub seg_kcode : ℕ
seg_kcode = 1

abbrev pub nr_irq : ℕ
nr_irq = 256

-- Every member is cut to the bits that it has.
unfoldable pub set_intr : ℕ → ℕ → ℕ → GateDescriptor
set_intr selector offset dpl = record {
  offset_15_0 = offset % 2 ^ 16;
  segment = selector * 8 % 2 ^ 16;
  pad0 = 0;
  kind = interrupt_gate_32;
  system = 0;
  privilege_level = dpl % 4;
  present = 1;
  offset_31_16 = offset / 2 ^ 16 % 2 ^ 16;
}

unfoldable pub set_trap : ℕ → ℕ → ℕ → GateDescriptor
set_trap selector offset dpl = record {
  offset_15_0 = offset % 2 ^ 16;
  segment = selector * 8 % 2 ^ 16;
  pad0 = 0;
  kind = trap_gate_32;
  system = 0;
  privilege_level = dpl % 4;
  present = 1;
  offset_31_16 = offset / 2 ^ 16 % 2 ^ 16;
}

-- `idt[i] = g`.
abbrev put : ℕ → GateDescriptor → Gates → Gates
put i g idt x = if x == i then g else idt x

abbrev intr : ℕ → ℕ → ℕ → Gates → Gates
intr i offset dpl idt = put i (set_intr seg_kcode offset dpl) idt

-- The loop of `initIdt`, for `k` rounds.
unfoldable pub set_traps : ℕ → ℕ → ℕ → Gates → Gates
set_traps offset zero i idt = idt
set_traps offset (suc k) i idt =
    set_traps offset k (i + 1) (put i (set_trap seg_kcode offset dpl_kern) idt)

unfoldable pub init_vectors : Entries → Gates → Gates
init_vectors e idt = intr 14 (e.vec 14) dpl_kern (
    intr 13 (e.vec 13) dpl_kern (
      intr 12 (e.vec 12) dpl_kern (
        intr 11 (e.vec 11) dpl_kern (
          intr 10 (e.vec 10) dpl_kern (
            intr 9 (e.vec 9) dpl_kern (
              intr 8 (e.vec 8) dpl_kern (
                intr 7 (e.vec 7) dpl_kern (
                  intr 6 (e.vec 6) dpl_kern (
                    intr 5 (e.vec 5) dpl_kern (
                      intr 4 (e.vec 4) dpl_kern (
                        intr 3 (e.vec 3) dpl_kern (
                          intr 2 (e.vec 2) dpl_kern
                            (intr 1 (e.vec 1) dpl_kern (intr 0 (e.vec 0) dpl_kern idt))))))))))))))

unfoldable pub init_idt : Entries → Gates → Gates
init_idt e idt = intr 0x21 e.irq1 dpl_user (
    intr 0x20 e.irq0 dpl_user (
      intr 0x80 e.irq_syscall dpl_user (
        intr 0xd e.irq_g_protect_fault dpl_kern
          (init_vectors e (set_traps e.irq_empty nr_irq 0 idt)))))

-- What the processor makes of a gate: where it enters, and whether an instruction `int` may use it
-- from a privilege level.
abbrev pub gate_offset : GateDescriptor → ℕ
gate_offset g = g.offset_15_0 + 2 ^ 16 * g.offset_31_16

abbrev pub admits : ℕ → GateDescriptor → Bool
admits cpl g = leb cpl g.privilege_level

-- Where `int n` enters the kernel from a privilege level: a gate that does not admit it makes a
-- general protection fault.
abbrev pub entered : Gates → ℕ → ℕ → ℕ
entered idt cpl n = if admits cpl (idt n) then gate_offset (idt n) else gate_offset (idt 13)

-- The addresses are 32-bit numbers.
pub record AreAddresses (e : Entries) : Type 0 where
  pub empty : e.irq_empty < 2 ^ 32
  pub fault : e.irq_g_protect_fault < 2 ^ 32
  pub call : e.irq_syscall < 2 ^ 32
  pub clock : e.irq0 < 2 ^ 32
  pub keys : e.irq1 < 2 ^ 32
  pub vecs : (n : ℕ) → e.vec n < 2 ^ 32

set_traps_lem :
    (offset k i : ℕ) (idt : Gates) (x : ℕ)
    → set_traps offset k i idt x
      ≡ (if leb i x && ltb x (i + k) then set_trap seg_kcode offset dpl_kern else idt x)
unfolding set_traps
set_traps_lem offset zero i idt x = ground arith
set_traps_lem offset (suc k) i idt x =
    ground
      (arith, set_traps_lem offset k (i + 1) (put i (set_trap seg_kcode offset dpl_kern) idt) x)

init_vectors_lem :
    (e : Entries) (idt : Gates) (x : ℕ)
    → init_vectors e idt x ≡ (if ltb x 15 then set_intr seg_kcode (e.vec x) dpl_kern else idt x)
unfolding init_vectors
init_vectors_lem e idt x = ground arith

gate_offset_lem : (s o d : ℕ) → o < 2 ^ 32 → gate_offset (set_intr s o d) ≡ o
unfolding set_intr
gate_offset_lem s o d h = omega arith

gate_offset_trap_lem : (s o d : ℕ) → o < 2 ^ 32 → gate_offset (set_trap s o d) ≡ o
unfolding set_trap
gate_offset_trap_lem s o d h = omega arith

-- The gates that `initIdt` makes.
abbrev gate_of : Entries → ℕ → GateDescriptor
gate_of e n =
    if n == 0x80
    then set_intr seg_kcode e.irq_syscall dpl_user
    else if n == 0x20
    then set_intr seg_kcode e.irq0 dpl_user
    else if n == 0x21
    then set_intr seg_kcode e.irq1 dpl_user
    else if n == 13
    then set_intr seg_kcode e.irq_g_protect_fault dpl_kern
    else if ltb n 15
    then set_intr seg_kcode (e.vec n) dpl_kern
    else set_trap seg_kcode e.irq_empty dpl_kern

init_idt_lem : (e : Entries) (idt : Gates) (n : ℕ) → n < 256 → init_idt e idt n ≡ gate_of e n
unfolding init_idt
init_idt_lem e idt n h = ground (
  arith,
  set_traps_lem e.irq_empty nr_irq 0 idt n,
  init_vectors_lem e (set_traps e.irq_empty nr_irq 0 idt) n,
)

-- An exception of the processor, or a number that nothing else has, gets to its own entry point, with
-- interrupts off for all but the latter; the code runs in the kernel's code segment.
pub init_idt-gate :
    (e : Entries) (idt : Gates) (n : ℕ)
    → AreAddresses e
    → n < 256
    → (gate_offset (init_idt e idt n) ≡ (
        if n == 13
        then e.irq_g_protect_fault
        else if ltb n 15
        then e.vec n
        else if n == 0x80
        then e.irq_syscall
        else if n == 0x20
        then e.irq0
        else if n == 0x21
        then e.irq1
        else e.irq_empty))
      × ((init_idt e idt n).present ≡ 1)
      × ((init_idt e idt n).segment ≡ kernel_sel seg_kcode)
      × (((init_idt e idt n).kind == interrupt_gate_32)
          ≡ (ltb n 15 || n == 0x80 || n == 0x20 || n == 0x21))
unfolding set_intr set_trap
init_idt-gate e idt n a h =
    let vec = gate_offset_lem seg_kcode (e.vec n) dpl_kern (a.vecs n) in
    let general = gate_offset_lem seg_kcode e.irq_g_protect_fault dpl_kern a.fault in
    let call = gate_offset_lem seg_kcode e.irq_syscall dpl_user a.call in
    let clock = gate_offset_lem seg_kcode e.irq0 dpl_user a.clock in
    let keys = gate_offset_lem seg_kcode e.irq1 dpl_user a.keys in
    let empty = gate_offset_trap_lem seg_kcode e.irq_empty dpl_kern a.empty in
    rw (init_idt_lem e idt n h) (
      ground (arith, vec, general, call, clock, keys, empty),
      ground arith,
      ground arith,
      ground arith,
    )
