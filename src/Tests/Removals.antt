-- ===== src/Tests/Removals.antt =====
-- Files that are removed.
use oslab_nju.Prelude.{ℕ, ◌≡◌, refl, [], ◌∷◌, ok, fault, arith, ◌∙◌, sym}
use oslab_nju.Fs.{Fs}
use oslab_nju.Fs.Lookup.{find_entry}
use oslab_nju.Fs.Change.{rm_fl}
use oslab_nju.Fs.Holding.{name-IsLast}
use oslab_nju.Fs.Removal.{Removable, Removed, rm_fl_lem, rm_fl-find_entry}
use oslab_nju.Tests.Paths.{a-IsName}
use oslab_nju.Tests.OpenFiles.{with_a, a_named, holder-IsDirectory, a-Found}

only_first : (x : ℕ) → a_named x ≡ b'a' ∷ [] → x ≡ 0
only_first x e = ground (arith, e)

a-Removable : Removable with_a [] (b'a' ∷ []) 0 a_named 2
a-Removable = record {
  levels = tt;
  is_last = name-IsLast (b'a' ∷ []) a-IsName (ground arith);
  leads = refl;
  inside = omega arith;
  dir = holder-IsDirectory;
  found = a-Found;
  there = λ e. absurd (omega (arith, e));
  called = refl;
  single = λ x y b c p q. only_first x p ∙ sym (only_first y q);
  mapped = refl;
}

rm_fl_example : Removed with_a (b'a' ∷ []) 0 a_named 2 (rm_fl (b'/' ∷ b'a' ∷ []) with_a)
rm_fl_example = rm_fl_lem with_a [] (b'a' ∷ []) 0 a_named 2 a-Removable

rm_fl-find_entry_example :
    (after : Fs) × (rm_fl (b'/' ∷ b'a' ∷ []) with_a ≡ ok after)
    × ((kind : ℕ) → find_entry kind (b'a' ∷ []) 0 after ≡ fault)
rm_fl-find_entry_example = rm_fl-find_entry with_a [] (b'a' ∷ []) 0 a_named 2 a-Removable
