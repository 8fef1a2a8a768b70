-- ===== src/Tests/OpenFiles.antt =====
-- Open files.
use oslab_nju.Prelude.{
  ℕ, zero, suc, ◌+◌, ◌<◌, ◌≡◌, ◌≢◌, ◌∙◌, sym, refl, ap, List, [], ◌∷◌, ok, ◌==◌, if◌then◌else◌,
  replicate, inl, arith, get_or, has, true,
}
use oslab_nju.Prelude.Word.{minus_one}
use oslab_nju.Text.{Bytes}
use oslab_nju.Fs.{Fs, Inode, nr_entries, fl_type}
use oslab_nju.Fs.Directory.{IsDirectory, Found}
use oslab_nju.Fs.Linking.{linked, renamed, linked-no, link-IsDirectory}
use oslab_nju.Fs.Resolve.{looked}
use oslab_nju.Fs.Holding.{name-IsLast}
use oslab_nju.Proc.{Ptr, Pcbs}
use oslab_nju.Kernel.{Kernel, SysFile}
use oslab_nju.Kernel.Files.{open_aux, close_aux}
use oslab_nju.Kernel.Process.Share.{users, no_file}
use oslab_nju.Kernel.FileTable.{InOrder, total, links}
use oslab_nju.Kernel.FileTable.Close.{Closed, close_aux_lem}
use oslab_nju.Kernel.FileTable.RoundTrip.{open_and_close, close_aux-attach}
use oslab_nju.Kernel.OpenPath.{CanOpen, OpensAs, OpensNew, with_fs, open_aux-existing, open_aux-new}
use oslab_nju.User.Program.{write_letters, Alphabet, write_letters_lem}
use oslab_nju.Tests.World.{sleeping}
use oslab_nju.Tests.Procs.{kernel}
use oslab_nju.Tests.Names.{folder, no_names, folder-IsDirectory}
use oslab_nju.Tests.Paths.{home, a-CanHold, a-IsName}

-- Only the running process has a descriptor, 3, on the first entry of the table.
abbrev descriptors : Ptr → List ℕ
descriptors p =
    if p == 7
    then minus_one ∷ minus_one ∷ minus_one ∷ 0 ∷ minus_one ∷ minus_one ∷ minus_one ∷ minus_one ∷ []
    else replicate 8 minus_one

abbrev pcbs : Pcbs
pcbs p = record (sleeping.pcb p) { filepointer = descriptors p }

abbrev one_open : Kernel
one_open = record (kernel (record sleeping { pcb = pcbs })) {
  files = (record { inode_index = 1; link_num = 1; offset = 0 }) ∷ replicate 511 no_file;
  fs = home;
}

get_or-free : (n i : ℕ) → get_or (replicate n no_file) i no_file ≡ no_file
get_or-free zero i = refl
get_or-free (suc n) zero = refl
get_or-free (suc n) (suc i) = get_or-free n i

descriptors-users : (i : ℕ) (p : Ptr) → suc i < 512 → users (suc i) (descriptors p) ≡ 0
descriptors-users i p b = ground arith

no_links : (i : ℕ) → suc i < 512 → (k : ℕ) (p : Ptr) → total (suc i) pcbs k p ≡ 0
unfolding total
no_links i b zero p = refl
no_links i b (suc k) p = ground (arith, descriptors-users i p b, no_links i b k (p + 1))

entry_at : (P : ℕ → Type 0) → P 0 → ((i : ℕ) → suc i < 512 → P (suc i)) → (i : ℕ) → i < 512 → P i
entry_at P z s zero b = z
entry_at P z s (suc i) b = s i b

-- Each descriptor is closed or the number 0.
descriptors-named : (p : Ptr) (i : ℕ) → has i (descriptors p) ≡ true → i ≢ minus_one → i < 512
descriptors-named p i h ne = ground (arith, h, ne)

one_open-InOrder : InOrder one_open
unfolding total
one_open-InOrder = record {
  counted =
      entry_at (λ i. (get_or one_open.files i no_file).link_num ≡ links i one_open) refl
        (λ i b. ap (λ f. f.link_num) (get_or-free 511 i) ∙ sym (no_links i b 9 7));
  unused =
      entry_at
        (λ i.
          (get_or one_open.files i no_file).link_num ≡ 0
          → (get_or one_open.files i no_file).inode_index ≡ minus_one)
        (λ e. absurd (omega (arith, e))) (λ i b e. ap (λ f. f.inode_index) (get_or-free 511 i));
  in_use =
      entry_at
        (λ i.
          (get_or one_open.files i no_file).inode_index ≡ minus_one
          → (get_or one_open.files i no_file).link_num ≡ 0)
        (λ e. absurd (omega (arith, e))) (λ i b e. ap (λ f. f.link_num) (get_or-free 511 i));
  named = λ p o i h ne. descriptors-named p i h ne;
  sizes = λ p o. ground arith;
  table = refl;
}

one_open-CanOpen : CanOpen one_open
one_open-CanOpen = record {
  in_order = one_open-InOrder;
  user = (omega arith, omega arith);
  entry_free = (1, omega arith, refl);
  closed = refl;
}

open_aux-new_example :
    OpensNew one_open
      ((b'd' ∷ []) ∷ [])
      (b'a' ∷ [])
      1
      no_names
      (open_aux (b'/' ∷ b'd' ∷ b'/' ∷ b'a' ∷ []) 0 one_open)
open_aux-new_example =
    open_aux-new one_open 0 1 ((b'd' ∷ []) ∷ []) (b'a' ∷ []) no_names one_open-CanOpen a-CanHold

close_aux_example : Closed one_open 3 (close_aux 3 one_open)
close_aux_example =
    close_aux_lem one_open 3 one_open-InOrder (omega arith, omega arith) (omega arith)
      (λ e. absurd (omega (arith, e)))

close_aux-attach_example :
    (after : Kernel) × (open_and_close 2 one_open ≡ ok after)
    × ((after.procs.pcb 7).filepointer ≡ descriptors 7)
    × ((i : ℕ)
        → i < 512
        → ((get_or after.files i no_file).inode_index
            ≡ (get_or one_open.files i no_file).inode_index)
          × ((get_or after.files i no_file).link_num ≡ (get_or one_open.files i no_file).link_num))
    × InOrder after
close_aux-attach_example =
    close_aux-attach one_open 2 one_open-InOrder (omega arith, omega arith) (omega arith)
      (1, omega arith, refl) refl

-- The file `a` is the inode 2.
abbrev pub holder : Inode
holder = record folder { block = linked 0 2 (b'a' ∷ []) folder.block; size = 1 }

abbrev pub with_a : Fs
with_a = record home {
  inodes = λ i.
      if i == 0
      then holder
      else if i == 2
      then record folder { kind = fl_type; filename = b'a' ∷ [] }
      else folder;
}

abbrev pub a_named : ℕ → List ℕ
a_named = renamed 0 (b'a' ∷ []) no_names

pub holder-IsDirectory : IsDirectory holder a_named
holder-IsDirectory =
    link-IsDirectory 0 2 (b'a' ∷ []) folder no_names folder-IsDirectory a-IsName (omega arith) refl
      (omega arith) (omega arith)

pub a-Found : Found with_a holder a_named fl_type (b'a' ∷ []) 0 nr_entries 2
a-Found = inl (
  0,
  omega arith,
  omega arith,
  (refl, refl, rw (linked-no 0 2 (b'a' ∷ []) folder.block (omega arith)) refl),
  λ j a b m. absurd (omega arith),
  rw (linked-no 0 2 (b'a' ∷ []) folder.block (omega arith)) refl,
)

abbrev has_a : Kernel
has_a = record one_open { fs = with_a }

has_a-CanOpen : CanOpen has_a
has_a-CanOpen = with_fs one_open with_a one_open-CanOpen

open_aux-existing_example :
    (o : ℕ) × (buf : Bytes) × OpensAs has_a 2
      (looked o buf with_a)
      (open_aux (b'/' ∷ b'a' ∷ []) 0 has_a)
open_aux-existing_example =
    open_aux-existing has_a 0 2 0 [] (b'a' ∷ []) a_named has_a-CanOpen tt
      (name-IsLast (b'a' ∷ []) a-IsName (ground arith)) refl (omega arith) holder-IsDirectory
      a-Found (λ e. absurd (omega (arith, e)))

abbrev first_file : SysFile
first_file = record { inode_index = 1; link_num = 1; offset = 0 }

one_open-Alphabet : Alphabet one_open 3 first_file 0
one_open-Alphabet = record {
  opened = record {
    object = (omega arith, omega arith);
    in_process = omega arith;
    in_table = omega arith;
    names = refl;
    inode = omega arith;
  };
  size = refl;
  letters = λ x h. absurd (omega arith);
}

write_letters_example :
    (after : Kernel) × (write_letters 512 3 0x1000 0 one_open ≡ ok after)
    × Alphabet after 3 first_file 512
write_letters_example =
    write_letters_lem 512 0 one_open 3 0x1000 first_file one_open-Alphabet (omega arith)
      (omega arith) (omega arith)
