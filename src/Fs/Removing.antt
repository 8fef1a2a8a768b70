-- ===== src/Fs/Removing.antt =====
-- A file that is removed: rmFL of fs.c, and a search of its directory afterwards.
use oslab_nju.Prelude.{
  ℕ, zero, suc, ◌+◌, ◌<◌, ◌≤◌, ◌≡◌, ◌≢◌, ◌∙◌, sym, ap, refl, true, false, List, [], Run, ok, fault,
  ltb, ◌==◌, Bool-cases, inl, inr, arith, ==→eq, ==→ne, ◌>>=◌,
}
use oslab_nju.Text.{Bytes, strcmp, is_equal}
use oslab_nju.Text.Compare.{AreBytes}
use oslab_nju.Fs.{Fs, Inode, nr_entries, entry_name, set_entry_no, set_entry_name}
use oslab_nju.Fs.Lookup.{scan_entries}
use oslab_nju.Fs.Change.{clear_entry}
use oslab_nju.Fs.Directory.{
  used, used-zero, is_empty, IsDirectory, same-cases, bind-run, is_empty-of, not_empty,
}
use oslab_nju.Fs.Search.{skip_unused, skip_other}

-- The entry `slot` is the first one with the name.
abbrev pub First : (ℕ → List ℕ) → List ℕ → ℕ → ℕ → Type 0
First names name lo slot =
    (lo ≤ slot)
    × (slot < nr_entries)
    × (names slot ≡ name)
    × ((j : ℕ) → lo ≤ j → j < slot → names j ≢ name)

-- Somewhere behind `i` an entry is used.
used-some :
    (names : ℕ → List ℕ) (k i slot : ℕ)
    → i ≤ slot
    → slot < i + k
    → is_empty (names slot) ≡ false
    → 0 < used names k i
used-some names k i slot a b f = elim (Bool-cases (used names k i == 0)) [
  | inl e ↦ absurd (ground (arith, used-zero names k i slot (==→eq _ 0 e) a b, f))
  | inr e ↦ ground arith
]

differ : true ≡ false → ⊥
differ e = absurd (ground arith)

less : (a b c : ℕ) → 0 < b → a + b ≡ c → ltb a c ≡ true
less a b c h e = ground arith

enough : (a b c : ℕ) → a + b < c → ltb a c ≡ true
enough a b c e = ground arith

pub used-unused :
    (names : ℕ → List ℕ) (k i : ℕ)
    → is_empty (names i) ≡ true
    → used names (suc k) i ≡ used names k (i + 1)
unfolding used
used-unused names k i e = ground (arith, e)

pub used-named :
    (names : ℕ → List ℕ) (k i : ℕ)
    → is_empty (names i) ≡ false
    → used names (suc k) i ≡ 1 + used names k (i + 1)
unfolding used
used-named names k i e = ground (arith, e)

module _ (dir : Inode) (names : ℕ → List ℕ) (name : List ℕ) where
  -- What a round does with an entry of the name `n`.
  clear-unused :
      (k i cont : ℕ) (n : List ℕ)
      → ltb cont dir.size ≡ true
      → entry_name dir.block i ≡ ok n
      → is_equal (strcmp n []) ≡ true
      → clear_entry (suc k) name dir i cont ≡ clear_entry k name dir (i + 1) cont
  unfolding clear_entry
  clear-unused k i cont n e h z =
      rw (clear_entry, e) (bind-run (entry_name dir.block i) _ n _ h (rw z refl))

  clear-used :
      (k i cont : ℕ) (n : List ℕ)
      → ltb cont dir.size ≡ true
      → entry_name dir.block i ≡ ok n
      → is_equal (strcmp n []) ≡ false
      → clear_entry (suc k) name dir i cont ≡ elim (is_equal (strcmp name n)) [
        | true ↦ ok (set_entry_name i [] (set_entry_no i 0 dir.block))
        | false ↦ clear_entry k name dir (i + 1) (cont + 1)
      ]
  unfolding clear_entry
  clear-used k i cont n e h z =
      rw (clear_entry, e) (bind-run (entry_name dir.block i) _ n _ h (rw z refl))

  -- The loop of `rmFL` clears the first entry with the name.
  pub clear_entry_lem :
      (k i cont slot : ℕ)
      → IsDirectory dir names
      → AreBytes name
      → is_empty name ≡ false
      → i + k ≡ nr_entries
      → cont + used names k i ≡ dir.size
      → First names name i slot
      → clear_entry (suc k) name dir i cont
        ≡ ok (set_entry_name slot [] (set_entry_no slot 0 dir.block))
  clear_entry_lem zero i cont slot d b f h c s = absurd (omega (arith, s))
  clear_entry_lem (suc k) i cont slot d b f h c (from, to, called, first) =
      let n = d.named i (omega arith) in
      let bs = d.bytes i (omega arith) in
      let full : is_empty (names slot) ≡ false = ap is_empty called ∙ f in
      let more : ltb cont dir.size ≡ true =
        less cont (used names (suc k) i) dir.size
          (used-some names (suc k) i slot from (omega arith) full) c in
      elim (Bool-cases (i == slot)) [
        | inl e ↦ elim (same-cases (names i) [] bs tt) [
          | inl (z, empty) ↦ absurd (
              differ (
                sym (is_empty-of (names i) empty)
                ∙ ap (λ x. is_empty (names x)) (==→eq i slot e)
                ∙ full))
          | inr (z, there) ↦
              let here : names i ≡ name = ap names (==→eq i slot e) ∙ called in
              elim (same-cases name (names i) b bs) [
                | inl (w, _) ↦
                    clear-used (suc k) i cont (names i) more n z
                    ∙ rw w (
                        ap (λ x. ok (set_entry_name x [] (set_entry_no x 0 dir.block)))
                          (==→eq i slot e))
                | inr (w, other) ↦ absurd (other (sym here))
              ]
        ]
        | inr e ↦
            let past : First names name (i + 1) slot =
              (omega (arith, ==→ne i slot e), to, called, λ j p q. first j (omega arith) q) in
            elim (same-cases (names i) [] bs tt) [
              | inl (z, empty) ↦
                  let gone = is_empty-of (names i) empty in
                  clear-unused (suc k) i cont (names i) more n z
                  ∙ clear_entry_lem k (i + 1) cont slot d b f (omega arith)
                      (omega (arith, used-unused names k i gone)) past
              | inr (z, there) ↦
                  let counts = not_empty (names i) there in
                  elim (same-cases name (names i) b bs) [
                    | inl (w, same) ↦
                        absurd (first i (omega arith) (omega (arith, ==→ne i slot e)) (sym same))
                    | inr (w, other) ↦
                        clear-used (suc k) i cont (names i) more n z
                        ∙ rw w (
                            clear_entry_lem k (i + 1) (cont + 1) slot d b f (omega arith)
                              (omega (arith, used-named names k i counts)) past)
                  ]
            ]
      ]

bind-fault : {A B : Type 0} (m : Run A) (f : A → Run B) → m ≡ fault → m >>= f ≡ fault
bind-fault m f e = ap (λ x. x >>= f) e

past_end : (b : Bytes) → entry_name b nr_entries ≡ fault
unfolding entry_name
past_end b = refl

-- With fewer used entries than the directory counts, a search for a name that is not there reads past
-- the last entry.
pub scan_entries-fault :
    (fs : Fs) (dir : Inode) (names : ℕ → List ℕ) (kind : ℕ) (name : List ℕ) (k i cont : ℕ)
    → ((j : ℕ) → j < nr_entries → entry_name dir.block j ≡ ok (names j))
    → ((j : ℕ) → j < nr_entries → AreBytes (names j))
    → AreBytes name
    → ((j : ℕ) → j < nr_entries → names j ≢ name)
    → i + k ≡ nr_entries
    → cont + used names k i < dir.size
    → scan_entries (suc k) fs dir kind name i cont ≡ fault
unfolding scan_entries
scan_entries-fault fs dir names kind name zero i cont named bytes b new h c =
    let more : ltb cont dir.size ≡ true = enough cont (used names zero i) dir.size c in
    let at : entry_name dir.block i ≡ fault =
      ap (entry_name dir.block) (omega arith) ∙ past_end dir.block in
    rw (scan_entries, more) (bind-fault (entry_name dir.block i) _ at)
scan_entries-fault fs dir names kind name (suc k) i cont named bytes b new h c =
    let n = named i (omega arith) in
    let more : ltb cont dir.size ≡ true = enough cont (used names (suc k) i) dir.size c in
    elim (same-cases (names i) [] (bytes i (omega arith)) tt) [
      | inl (z, empty) ↦
          skip_unused fs dir names kind name (suc k) i cont (names i) more n z
          ∙ scan_entries-fault fs dir names kind name k (i + 1) cont named bytes b new (omega arith)
              (omega (arith, c, used-unused names k i (is_empty-of (names i) empty)))
      | inr (z, there) ↦ elim (same-cases (names i) name (bytes i (omega arith)) b) [
        | inl (w, same) ↦ absurd (new i (omega arith) same)
        | inr (w, other) ↦
            skip_other fs dir names kind name (suc k) i cont (names i) more n z w
            ∙ scan_entries-fault fs dir names kind name k (i + 1) (cont + 1) named bytes b new
                (omega arith) (omega (arith, c, used-named names k i (not_empty (names i) there)))
      ]
    ]
