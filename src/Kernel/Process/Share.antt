-- ===== src/Kernel/Process/Share.antt =====
-- The loop of `fork_aux` over the descriptors, which counts the links to the open files.
use oslab_nju.Prelude.{
  ℕ, zero, suc, ◌+◌, ◌^◌, ◌<◌, ◌≡◌, ◌≢◌, refl, ◌∙◌, true, List, [], ◌∷◌, ok, inl, inr, ◌==◌,
  if◌then◌else◌, Bool-cases, has, get_or, set, length, length-set, get_or-set_self, get_or-set_ne,
  ==→eq, ==→ne, arith,
}
use oslab_nju.Prelude.Word.{minus_one, add32}
use oslab_nju.Kernel.{SysFile, load_file}
use oslab_nju.Kernel.Process.{share_files}

-- How many descriptors of a list name an entry.
abbrev pub users : ℕ → List ℕ → ℕ
users i [] = 0
users i (fp ∷ fps) = if fp == i then suc (users i fps) else users i fps

-- What stands outside the table of open files.
abbrev pub no_file : SysFile
no_file = record { inode_index = minus_one; link_num = 0; offset = 0 }

-- Each descriptor is closed or names an entry of the table, whose count of links has room.
abbrev pub AreOpen : List ℕ → List SysFile → Type 0
AreOpen fps files =
    (i : ℕ)
    → has i fps ≡ true
    → i ≢ minus_one
    → (i < length files) × ((get_or files i no_file).link_num + length fps < 2 ^ 32)

-- Each entry has one more link for each descriptor that names it.
abbrev pub Shared : List ℕ → List SysFile → List SysFile → Type 0
Shared fps old new =
    (length new ≡ length old)
    × ((i : ℕ)
        → i < length old
        → i ≢ minus_one
        → get_or new i no_file ≡ record (get_or old i no_file) {
          link_num = (get_or old i no_file).link_num + users i fps;
        })

pub load_file-ok :
    (i : ℕ) (files : List SysFile)
    → i < length files
    → load_file i files ≡ ok (get_or files i no_file)
unfolding load_file
load_file-ok i [] h = absurd (omega arith)
load_file-ok zero (x ∷ xs) h = refl
load_file-ok (suc i) (x ∷ xs) h = load_file-ok i xs (omega arith)

abbrev one_more : ℕ → List SysFile → SysFile
one_more fp files = let f = get_or files fp no_file in record f { link_num = add32 f.link_num 1 }

abbrev linked_once : ℕ → List SysFile → List SysFile
linked_once fp files = set files fp (one_more fp files)

linked_once-open :
    (fp : ℕ) (fps : List ℕ) (files : List SysFile)
    → AreOpen (fp ∷ fps) files
    → fp < length files
    → AreOpen fps (linked_once fp files)
linked_once-open fp fps files h b i m ne = elim (Bool-cases (fp == i)) [
  | inl e ↦ ground (
    arith,
    h i,
    length-set files fp (one_more fp files),
    get_or-set_self files fp (one_more fp files) no_file b,
  )
  | inr e ↦ ground (
    arith,
    h i,
    length-set files fp (one_more fp files),
    get_or-set_ne files {i = fp} {j = i} (one_more fp files) no_file,
  )
]

linked_once-entry :
    (fp : ℕ) (fps : List ℕ) (files : List SysFile) (i : ℕ)
    → fp < length files
    → (get_or files fp no_file).link_num + suc (length fps) < 2 ^ 32
    → ◌≡◌ {A = SysFile}
        (record (get_or (linked_once fp files) i no_file) {
          link_num = (get_or (linked_once fp files) i no_file).link_num + users i fps;
        })
        (record (get_or files i no_file) {
          link_num = (get_or files i no_file).link_num + users i (fp ∷ fps);
        })
linked_once-entry fp fps files i b room = elim (Bool-cases (fp == i)) [
  | inl e ↦
      let same : fp ≡ i = ==→eq fp i e in
      ground (arith, get_or-set_self files fp (one_more fp files) no_file b)
  | inr e ↦ ground (arith, get_or-set_ne files {i = fp} {j = i} (one_more fp files) no_file)
]

pub share_files_lem :
    (fps : List ℕ) (files : List SysFile)
    → AreOpen fps files
    → (after : List SysFile) × (share_files fps files ≡ ok after) × Shared fps files after
unfolding share_files
share_files_lem [] files h = (files, refl, (refl, λ i b ne. ground arith))
share_files_lem (fp ∷ fps) files h = elim (Bool-cases (fp == minus_one)) [
  | inl e ↦
      let (after, run, (len, shared)) =
        share_files_lem fps files (λ i m ne. omega (arith, h i (ground arith) ne)) in
      (after, rw (share_files, e) run, (len, λ i b ne. ground (arith, shared i b ne)))
  | inr e ↦
      let (b, room) = h fp (ground arith) (==→ne fp minus_one e) in
      let (after, run, (len, shared)) =
        share_files_lem fps (linked_once fp files) (linked_once-open fp fps files h b) in
      (
        after,
        rw (share_files, e, load_file-ok fp files b) run,
        (
          len ∙ length-set files fp (one_more fp files),
          λ i b' ne.
              shared i (rw (length-set files fp (one_more fp files)) b') ne
              ∙ linked_once-entry fp fps files i b room,
        ),
      )
]
