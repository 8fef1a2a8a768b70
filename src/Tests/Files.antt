-- ===== src/Tests/Files.antt =====
-- Reading and writing.
use oslab_nju.Prelude.{◌+◌, ◌≡◌, refl, [], ◌∷◌, replicate}
use oslab_nju.Text.{take_bytes}
use oslab_nju.Fs.{Fs}

abbrev blank : Fs
blank = record {
  inode_map = replicate 32 0;
  inuse_inode_num = 0;
  inodes = λ i. record { kind = 0; size = 0; filename = []; block = λ a. 0 };
  path_offset = 0;
  top_dir = λ a. 0;
}

alphabet : take_bytes 3 0 (λ i. 65 + i) ≡ 65 ∷ 66 ∷ 67 ∷ []
unfolding take_bytes
alphabet = refl
