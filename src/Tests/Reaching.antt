-- ===== src/Tests/Reaching.antt =====
-- The kernel starts, a process gets the processor, and opens a file.
use oslab_nju.Prelude.{
  ℕ, zero, suc, ◌≡◌, refl, ap, true, ok, arith, replicate, get_or, length, has, map,
}
use oslab_nju.Prelude.Word.{minus_one}
use oslab_nju.Kernel.{Kernel}
use oslab_nju.Kernel.Boot.{free_file, init_pcb}
use oslab_nju.Kernel.Process.Share.{no_file}
use oslab_nju.Kernel.Files.{attach}
use oslab_nju.Kernel.FileTable.{InOrder}
use oslab_nju.Kernel.FileTable.Free.{SomeFree, behind_three}
use oslab_nju.Kernel.FileTable.Open.{Attached, attach_lem}
use oslab_nju.Kernel.FileTable.Booted.{NoneOpen, init_pcb-InOrder}
use oslab_nju.Kernel.FileTable.Reached.{Reached, booted, goes_on, opens, Reached-InOrder}
use oslab_nju.Tests.World.{sleeping}
use oslab_nju.Tests.Procs.{kernel}

-- Memory that is set to zero, as far as the table goes.
abbrev bare : Kernel
bare = record (kernel sleeping) {
  files = replicate 512 (record { inode_index = 0; link_num = 0; offset = 0 });
}

zero_links :
    (n i : ℕ)
    → (get_or
        (replicate n (record { inode_index = 0; link_num = 0; offset = 0 }))
        i
        no_file).link_num
      ≡ 0
zero_links zero i = refl
zero_links (suc n) zero = refl
zero_links (suc n) (suc i) = zero_links n i

abbrev start_up :
    (after : Kernel) × (init_pcb bare ≡ ok after)
    × InOrder after
    × (after.files ≡ map free_file bare.files)
    × NoneOpen after.procs.pcb
start_up = init_pcb-InOrder bare refl refl (zero_links 512)

abbrev with_process : Kernel
with_process = record start_up.0 { procs = record start_up.0.procs { current = 7 } }

with_process-Reached : Reached with_process
with_process-Reached =
    goes_on start_up.0 (booted bare refl refl (zero_links 512) start_up.1) refl (λ p. refl)

some_free : SomeFree with_process.files
some_free = (
  1,
  omega (arith, ap (λ l. length l) start_up.3),
  ap (λ l. (get_or l 1 no_file).inode_index) start_up.3,
)

closed : has minus_one (behind_three (with_process.procs.pcb 7).filepointer) ≡ true
closed = ap (λ l. has minus_one (behind_three l)) (start_up.4 7 (omega arith, omega arith))

abbrev opened : Attached with_process 1 (attach 1 with_process)
opened =
    attach_lem with_process 1 (Reached-InOrder with_process-Reached) (omega arith, omega arith)
      (omega arith) some_free closed

Reached-InOrder_example : InOrder opened.after
Reached-InOrder_example = Reached-InOrder (
    opens with_process 1 with_process-Reached (omega arith, omega arith) (omega arith) some_free
      closed opened.runs)
