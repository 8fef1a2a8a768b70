-- ===== src/User/Printing.antt =====
-- `printf` with the kernel: the text on the screen.
use oslab_nju.Prelude.{
  ℕ, zero, suc, ◌+◌, ◌-◌, ◌%◌, ◌^◌, ◌≤◌, ◌<◌, ◌≡◌, refl, ◌∙◌, ap, ◌&&◌, List, ◌∷◌, ok, ltb, leb,
  if◌then◌else◌, length, map, arith,
}
use oslab_nju.Text.{Bytes, take_bytes}
use oslab_nju.Proc.{TrapFrame, IsObject}
use oslab_nju.Proc.Chain.{load-ok}
use oslab_nju.Print.{Arg, printk}
use oslab_nju.Console.Screen.{put_all}
use oslab_nju.Sem.{user_address}
use oslab_nju.Fs.Change.{rounds}
use oslab_nju.Kernel.{Kernel, load_current}
use oslab_nju.Kernel.Files.{at_address, write_aux}
use oslab_nju.Kernel.Trap.{system_call}
use oslab_nju.User.Calls.{write, system_call-Reaches}
use oslab_nju.User.Output.{Output, max_size, printf, printf_lem}

take_bytes-ext :
    (n i j : ℕ) (a b : Bytes)
    → ((x : ℕ) → x < n → a (i + x) ≡ b (j + x))
    → take_bytes n i a ≡ take_bytes n j b
unfolding take_bytes
take_bytes-ext zero i j a b h = refl
take_bytes-ext (suc n) i j a b h =
    let first : a i ≡ b j = ap a (omega arith) ∙ h 0 (omega arith) ∙ ap b (omega arith) in
    let rest =
      take_bytes-ext n (i + 1) (j + 1) a b
        (λ x l. ap a (omega arith) ∙ h (x + 1) (omega arith) ∙ ap b (omega arith)) in
    ap (λ v. v ∷ take_bytes n (i + 1) a) first ∙ ap (λ l. b j ∷ l) rest

-- Memory in which `outbuf` lies at an address.
abbrev pub with_outbuf : ℕ → Output → Bytes → Bytes
with_outbuf a o mem x = if leb a x && ltb x (a + max_size) then o.outbuf (x - a) else mem x

-- What `printf` prints is the text that `printk` prints by the same format, and it gets to the screen:
-- the system call that `printf` makes, in a process whose memory holds `outbuf`, puts the text's
-- characters on the screen in order as bytes, and changes nothing else. The current process is a PCB,
-- the text has at most 1024 characters and the buffer lies below the end of the memory.
pub printf_to_screen :
    (address : ℕ) (format : List ℕ) (args : List Arg) (out : List ℕ) (t : TrapFrame) (o : Output)
    (scans : List ℕ) (k : Kernel)
    → printk format args ≡ ok out
    → length out ≤ max_size
    → IsObject k.procs.current
    → user_address (k.procs.pcb k.procs.current).pid address + max_size ≤ 2 ^ 32
    → let a = user_address (k.procs.pcb k.procs.current).pid address in
      (o' : Output) × (t' : TrapFrame) × (printf address format args t o ≡ ok (o', t'))
      × (let k' = record k { mem = with_outbuf a o' k.mem } in
          system_call t' scans k'
          ≡ ok (record k' { screen = put_all (map (λ c. c % 256) out) k.screen }))
unfolding write_aux load_current
printf_to_screen address format args out t o scans k h b c room =
    let (o', run, text) = printf_lem address format args out t o h b in
    let pid = (k.procs.pcb k.procs.current).pid in
    let a : ℕ = user_address pid address in
    let mem : Bytes = with_outbuf a o' k.mem in
    let k' : Kernel = record k { mem = mem } in
    let same = take_bytes-ext (length out) 0 0 (at_address mem a) o'.outbuf (λ x l. ground arith) in
    let count : rounds (length out) ≡ length out = ground arith in
    (
      o',
      write 1 address (length out) t,
      run,
      (system_call-Reaches t scans k').to_write 1 address (length out)
          ∙ rw (load-ok k.procs.pcb k.procs.current c, count, same, text) refl,
    )
