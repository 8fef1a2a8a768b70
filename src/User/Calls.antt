-- ===== src/User/Calls.antt =====
-- The calls of lib/syscall.c: what each puts into the registers for `int $0x80`.
use oslab_nju.Prelude.{ℕ, ◌≡◌, refl, List}
use oslab_nju.Proc.{TrapFrame}
use oslab_nju.Sem.{sem_init_aux, sem_destroy_aux, sem_wait_aux, sem_post_aux}
use oslab_nju.Kernel.{Kernel, with_procs}
use oslab_nju.Kernel.Files.{
  open_aux, write_aux, close_aux, remove_aux, read_aux, lseek_aux, ls_aux, cat_aux,
}
use oslab_nju.Kernel.Process.{exit_aux, fork_aux, sleep_aux}
use oslab_nju.Kernel.Trap.{system_call, with_path}

-- `syscall(num, a1, a2, a3, ...)`: the other registers are those of the frame.
unfoldable pub syscall : ℕ → ℕ → ℕ → ℕ → TrapFrame → TrapFrame
syscall n a1 a2 a3 t = record t { eax = n; ebx = a1; ecx = a2; edx = a3 }

unfoldable pub fork : TrapFrame → TrapFrame
fork = syscall 2 0 0 0

unfoldable pub exit : TrapFrame → TrapFrame
exit = syscall 1 0 0 0

unfoldable pub sleep : ℕ → TrapFrame → TrapFrame
sleep time_cont = syscall 162 time_cont 0 0

unfoldable pub sem_init : ℕ → ℕ → TrapFrame → TrapFrame
sem_init sem value = syscall 7 sem value 0

unfoldable pub sem_destroy : ℕ → TrapFrame → TrapFrame
sem_destroy sem = syscall 8 sem 0 0

unfoldable pub sem_wait : ℕ → TrapFrame → TrapFrame
sem_wait sem = syscall 9 sem 0 0

unfoldable pub sem_post : ℕ → TrapFrame → TrapFrame
sem_post sem = syscall 10 sem 0 0

unfoldable pub ls : ℕ → TrapFrame → TrapFrame
ls path = syscall 13 path 0 0

unfoldable pub cat : ℕ → TrapFrame → TrapFrame
cat path = syscall 14 path 0 0

unfoldable pub open_file : ℕ → ℕ → TrapFrame → TrapFrame
open_file path flags = syscall 5 path flags 0

unfoldable pub read : ℕ → ℕ → ℕ → TrapFrame → TrapFrame
read fd buffer size = syscall 3 fd buffer size

unfoldable pub write : ℕ → ℕ → ℕ → TrapFrame → TrapFrame
write fd buffer size = syscall 4 fd buffer size

unfoldable pub lseek : ℕ → ℕ → ℕ → TrapFrame → TrapFrame
lseek fd offset whence = syscall 11 fd offset whence

unfoldable pub close : ℕ → TrapFrame → TrapFrame
close fd = syscall 6 fd 0 0

unfoldable pub remove : ℕ → TrapFrame → TrapFrame
remove path = syscall 12 path 0 0

-- Each call of the user library reaches the handler of its name, with its arguments in order.
pub record Reaches (t : TrapFrame) (scans : List ℕ) (k : Kernel) : Type 0 where
  pub to_exit : system_call (exit t) scans k ≡ exit_aux k
  pub to_fork : system_call (fork t) scans k ≡ fork_aux k
  pub to_sleep : (n : ℕ) → system_call (sleep n t) scans k ≡ sleep_aux n k
  pub to_read : (fd b n : ℕ) → system_call (read fd b n t) scans k ≡ read_aux fd b n scans k
  pub to_write : (fd b n : ℕ) → system_call (write fd b n t) scans k ≡ write_aux fd b n k
  pub to_lseek : (fd o w : ℕ) → system_call (lseek fd o w t) scans k ≡ lseek_aux fd o w k
  pub to_open :
      (p f : ℕ) → system_call (open_file p f t) scans k ≡ with_path p (λ s. open_aux s f) k
  pub to_close : (fd : ℕ) → system_call (close fd t) scans k ≡ close_aux fd k
  pub to_remove : (p : ℕ) → system_call (remove p t) scans k ≡ with_path p remove_aux k
  pub to_ls : (p : ℕ) → system_call (ls p t) scans k ≡ with_path p ls_aux k
  pub to_cat : (p : ℕ) → system_call (cat p t) scans k ≡ with_path p cat_aux k
  pub to_sem_init :
      (a v : ℕ) → system_call (sem_init a v t) scans k ≡ with_procs (sem_init_aux a v) k
  pub to_sem_destroy :
      (a : ℕ) → system_call (sem_destroy a t) scans k ≡ with_procs (sem_destroy_aux a) k
  pub to_sem_wait : (a : ℕ) → system_call (sem_wait a t) scans k ≡ with_procs (sem_wait_aux a) k
  pub to_sem_post : (a : ℕ) → system_call (sem_post a t) scans k ≡ with_procs (sem_post_aux a) k

-- Every one of the fifteen calls of the user library puts its number and its arguments where the
-- kernel's `switch` looks for them: the handler of its name gets its arguments in order.
pub system_call-Reaches : (t : TrapFrame) (scans : List ℕ) (k : Kernel) → Reaches t scans k
unfolding system_call syscall fork exit sleep sem_init sem_destroy sem_wait sem_post ls cat
    open_file read write lseek close remove
system_call-Reaches t scans k = record {
  to_exit = refl;
  to_fork = refl;
  to_sleep = λ n. refl;
  to_read = λ fd b n. refl;
  to_write = λ fd b n. refl;
  to_lseek = λ fd o w. refl;
  to_open = λ p f. refl;
  to_close = λ fd. refl;
  to_remove = λ p. refl;
  to_ls = λ p. refl;
  to_cat = λ p. refl;
  to_sem_init = λ a v. refl;
  to_sem_destroy = λ a. refl;
  to_sem_wait = λ a. refl;
  to_sem_post = λ a. refl;
}
