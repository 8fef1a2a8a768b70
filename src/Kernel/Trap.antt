-- ===== src/Kernel/Trap.antt =====
-- The handlers of kernel/kernel/irqHandle.c: irqHandle, GProtectFaultHandle, timerHandle,
-- keyboardHandle and syscallHandle. A trap frame on a kernel stack is named by the PCB whose field
-- `tf` it is.
use oslab_nju.Prelude.{
  ℕ, Bool, true, false, List, [], ◌∷◌, Run, ok, abort, ◌>>=◌, ◌>>◌, assert, ◌==◌, if◌then◌else◌,
}
use oslab_nju.Prelude.Word.{minus_one}
use oslab_nju.Text.{read_string}
use oslab_nju.Proc.{Ptr, TrapFrame}
use oslab_nju.Sched.{timer_handle}
use oslab_nju.Sem.{sem_init_aux, sem_destroy_aux, sem_wait_aux, sem_post_aux}
use oslab_nju.Console.Keyboard.{keyboard_handle}
use oslab_nju.Kernel.{Kernel, load_current, with_procs}
use oslab_nju.Kernel.Files.{
  open_aux, write_aux, close_aux, remove_aux, read_aux, lseek_aux, ls_aux, cat_aux,
}
use oslab_nju.Kernel.Process.{exit_aux, fork_aux, sleep_aux}

-- A path lies in the user's memory, which has 2 MB for each process.
abbrev pub path_room : ℕ
path_room = 0x20_0000

-- A system call with a path as its argument.
unfoldable pub with_path : ℕ → (List ℕ → Kernel → Run Kernel) → Kernel → Run Kernel
with_path a f k = do path ← read_string path_room k.mem a; f path k

-- The `switch` of `syscallHandle`; `scans` are the keys that are pressed while the call waits.
unfoldable pub system_call : TrapFrame → List ℕ → Kernel → Run Kernel
system_call t scans k =
    if t.eax == 1
    then exit_aux k
    else if t.eax == 2
    then fork_aux k
    else if t.eax == 3
    then read_aux t.ebx t.ecx t.edx scans k
    else if t.eax == 4
    then write_aux t.ebx t.ecx t.edx k
    else if t.eax == 11
    then lseek_aux t.ebx t.ecx t.edx k
    else if t.eax == 5
    then with_path t.ebx (λ p. open_aux p t.ecx) k
    else if t.eax == 6
    then close_aux t.ebx k
    else if t.eax == 12
    then with_path t.ebx remove_aux k
    else if t.eax == 7
    then with_procs (sem_init_aux t.ebx t.ecx) k
    else if t.eax == 8
    then with_procs (sem_destroy_aux t.ebx) k
    else if t.eax == 9
    then with_procs (sem_wait_aux t.ebx) k
    else if t.eax == 10
    then with_procs (sem_post_aux t.ebx) k
    else if t.eax == 13
    then with_path t.ebx ls_aux k
    else if t.eax == 14
    then with_path t.ebx cat_aux k
    else if t.eax == 162
    then sleep_aux t.ebx k
    else abort

unfoldable pub syscall_handle : Ptr → List ℕ → Kernel → Run Kernel
syscall_handle frame scans k = do
  assert (frame == k.procs.current)
  c ← load_current k
  system_call c.tf scans k

-- `GProtectFaultHandle` never returns.
unfoldable pub gprotect_fault_handle : Ptr → Kernel → Run Kernel
gprotect_fault_handle frame k = do assert (frame == k.procs.current); abort

-- The clock in an interrupt that is not nested is held to be the current process's.
unfoldable pub timer_interrupt : Bool → Ptr → Kernel → Run Kernel
timer_interrupt true frame k = ok k
timer_interrupt false frame k = do
  assert (frame == k.procs.current)
  with_procs (timer_handle false) k

unfoldable pub keyboard_interrupt : ℕ → Kernel → Run Kernel
keyboard_interrupt scan k = do
  (sc, i) ← keyboard_handle scan k.screen k.input
  ok (record k { screen = sc; input = i })

-- The `switch` of `irqHandle`. `scans` begins with what port 0x60 returns.
unfoldable pub dispatch_irq : ℕ → Bool → Ptr → List ℕ → Kernel → Run Kernel
dispatch_irq irq nested frame scans k =
    if irq == minus_one
    then ok k
    else if irq == 0xd
    then gprotect_fault_handle frame k
    else if irq == 0x20
    then timer_interrupt nested frame k
    else if irq == 0x21
    then keyboard_interrupt (first scans) k
    else if irq == 0x80
    then syscall_handle frame scans k
    else abort
  where
    first : List ℕ → ℕ
    first [] = 0
    first (x ∷ xs) = x

-- `irqHandle`, with the frame that the processor returns through (`currentstacktop`): that of the
-- current process, or in a nested interrupt the frame that came in.
unfoldable pub irq_handle : ℕ → Bool → Ptr → List ℕ → Kernel → Run (Kernel × Ptr)
irq_handle irq nested frame scans k = do
  k ← dispatch_irq irq nested frame scans k
  ok (k, if nested then frame else k.procs.current)
