-- ===== src/Fs/Keeping.antt =====
-- Making a file keeps the other paths: what makeFL leaves of a path of directories.
use oslab_nju.Prelude.{
  ℕ, ◌<◌, ◌≡◌, ◌≢◌, ◌∙◌, sym, ap, refl, true, false, List, [], ◌∷◌, Run, ok, ◌==◌, Bool-cases, inl,
  inr, arith, ==→eq,
}
use mathlib.Core.Path.{subst}
use oslab_nju.Prelude.Word.{minus_one, add32}
use oslab_nju.Fs.{Fs, Inode, nr_inode, nr_entries, dir_type, entry_no, entry_name}
use oslab_nju.Fs.Directory.{IsDirectory, Found, Matches, is_empty}
use oslab_nju.Fs.Linking.{IsName, linked, renamed, link-IsDirectory, linked-other}
use oslab_nju.Fs.Making.{with_file}
use oslab_nju.Fs.Resolve.{Down, Leads, with_slash, NoSlash}

-- A search has the same result when used entries stay and only the inode `index`, which is not of
-- the type, has another type.
module _ (fs fs' : Fs) (dir dir' : Inode) (names names' : ℕ → List ℕ) (kind index : ℕ)
    (target : List ℕ)
    (same : (k : ℕ)
      → k < nr_entries
      → is_empty (names k) ≡ false
      → (names' k ≡ names k) × (entry_no dir'.block k ≡ entry_no dir.block k))
    (new : (k : ℕ) → k < nr_entries → is_empty (names k) ≡ true → names' k ≢ target)
    (kinds : (x : ℕ) → x ≢ index → (fs'.inodes x).kind ≡ (fs.inodes x).kind)
    (other : (fs'.inodes index).kind ≢ kind) where
  Matches-keep :
      (k : ℕ)
      → k < nr_entries
      → entry_no dir.block k ≢ index
      → Matches fs dir names kind target k
      → Matches fs' dir' names' kind target k
  Matches-keep k b ne (full, called, is) =
      let (n, e) = same k b full in
      (
        ap is_empty n ∙ full,
        n ∙ called,
        ap (λ x. (fs'.inodes x).kind) e ∙ kinds (entry_no dir.block k) ne ∙ is,
      )

  Matches-back :
      (k : ℕ)
      → k < nr_entries
      → Matches fs' dir' names' kind target k
      → Matches fs dir names kind target k
  Matches-back k b (full, called, is) = elim (Bool-cases (is_empty (names k))) [
    | inl z ↦ absurd (new k b z called)
    | inr z ↦
        let (n, e) = same k b z in
        let is' : (fs'.inodes (entry_no dir.block k)).kind ≡ kind =
          ap (λ x. (fs'.inodes x).kind) (sym e) ∙ is in
        (
          z,
          sym n ∙ called,
          elim (Bool-cases (entry_no dir.block k == index)) [
            | inl w ↦ absurd (other (ap (λ x. (fs'.inodes x).kind) (sym (==→eq _ index w)) ∙ is'))
            | inr w ↦ sym (kinds (entry_no dir.block k) (λ p. ground (arith, p))) ∙ is'
          ],
        )
  ]

  Found-keep :
      (n : ℕ)
      → n ≢ index
      → n ≢ minus_one
      → Found fs dir names kind target 0 nr_entries n
      → Found fs' dir' names' kind target 0 nr_entries n
  Found-keep n ne there (inr (nobody, e)) = absurd (there e)
  Found-keep n ne there (inl (k, a, b, m, before, e)) = inl (
    k,
    a,
    b,
    Matches-keep k b (λ p. ne (e ∙ p)) m,
    λ x p q h. before x p q (Matches-back x (omega arith) h),
    e ∙ sym (same k b m.0).1,
  )

pub ok-injective : {A : Type 0} {x y : A} → ok x ≡ ok y → x ≡ y
ok-injective {A} {x} e = ap value e
  where
    value : Run A → A
    value (ok y) = y
    value _ = x

-- Each inode that is passed has the property.
abbrev pub Through :
    (ℕ → Type 0) → (fs : Fs) (ds : List (List ℕ)) (i j : ℕ) → Leads fs ds i j → Type 0
Through P fs [] i j h = P i
Through P fs (d ∷ ds) i j (n, down, ne, leads) = P i × Through P fs ds n j leads

with_slash-full : (d s : List ℕ) → is_empty s ≡ true → s ≢ with_slash d
with_slash-full [] [] z p = absurd (ground (arith, p))
with_slash-full (c ∷ cs) [] z p = absurd (ground (arith, p))
with_slash-full d (c ∷ cs) z p = absurd (ground (arith, z))

module _ (slot index p_index : ℕ) (name : List ℕ) (fs : Fs) (at : slot < nr_entries)
    (free : entry_name (fs.inodes p_index).block slot ≡ ok []) (bi : index < nr_inode)
    (room : (fs.inodes p_index).size < nr_entries) (ne : index ≢ p_index) (n : IsName name)
    (plain : NoSlash name) where
  abbrev pub after : Fs
  after = with_file slot index p_index name fs

  not_dir : (d : List ℕ) → name ≢ with_slash d
  not_dir d e = no_slash d (subst NoSlash e plain)
    where
      no_slash : (d : List ℕ) → NoSlash (with_slash d) → ⊥
      no_slash [] h = absurd (ground (arith, h))
      no_slash (c ∷ cs) h = no_slash cs h.1

  Down-parent :
      (d : List ℕ) (i r : ℕ)
      → i ≡ p_index
      → r ≢ index
      → r ≢ minus_one
      → Down fs d i r
      → Down after d i r
  Down-parent d i r e nr there (b, (names, dir, found)) =
      let empty : names slot ≡ [] =
        ok-injective
          (sym (dir.named slot at) ∙ ap (λ x. entry_name (fs.inodes x).block slot) e ∙ free) in
      let roomy : (fs.inodes i).size < nr_entries = rw e room in
      let here : after.inodes i ≡ record (fs.inodes i) {
        block = linked slot index name (fs.inodes i).block;
        size = add32 (fs.inodes i).size 1;
      } =
        ground (arith, e, ne) in
      let ordered = link-IsDirectory slot index name (fs.inodes i) names dir n at empty bi roomy in
      (
        b,
        (
          renamed slot name names,
          subst (λ x. IsDirectory x (renamed slot name names)) (sym here) ordered,
          Found-keep fs after (fs.inodes i) (after.inodes i) names (renamed slot name names)
              dir_type index (with_slash d)
              (λ k l full.
                let differ : k ≢ slot = λ p. absurd (ground (arith, p, full, empty)) in
                (
                  ground (arith, differ),
                  rw here (linked-other slot index name (fs.inodes i).block k n.fits differ),
                ))
              (λ k l z p. elim (Bool-cases (k == slot)) [
                | inl w ↦ not_dir d (rw w at p)
                | inr w ↦ absurd (with_slash-full d (names k) z (rw w at p))
              ])
              (λ x ne'. ground (arith, ne')) (ground arith) r nr there found,
        ),
      )

  Down-elsewhere :
      (d : List ℕ) (i r : ℕ)
      → i ≢ p_index
      → i ≢ index
      → r ≢ index
      → r ≢ minus_one
      → Down fs d i r
      → Down after d i r
  Down-elsewhere d i r e e' nr there (b, (names, dir, found)) =
      let here : after.inodes i ≡ fs.inodes i = ground (arith, e, e') in
      (
        b,
        (
          names,
          subst (λ x. IsDirectory x names) (sym here) dir,
          Found-keep fs after (fs.inodes i) (after.inodes i) names names dir_type index
              (with_slash d) (λ k l full. (refl, ap (λ x. entry_no x.block k) here))
              (λ k l z p. with_slash-full d (names k) z p) (λ x ne'. ground (arith, ne'))
              (ground arith) r nr there found,
        ),
      )

  -- The directories that lead somewhere without the new inode still do so.
  pub Leads-keep :
      (ds : List (List ℕ)) (i j : ℕ) (h : Leads fs ds i j)
      → Through (λ x. x ≢ index) fs ds i j h
      → Leads after ds i j
  Leads-keep [] i j h t = h
  Leads-keep (d ∷ []) i j (m, down, there, leads) (a, t) = elim (Bool-cases (i == p_index)) [
    | inl z ↦ (m, Down-parent d i m (==→eq i p_index z) t there down, there, leads)
    | inr z ↦ (m, Down-elsewhere d i m (λ p. ground (arith, p)) a t there down, there, leads)
  ]
  Leads-keep (d ∷ d' ∷ ds) i j (m, down, there, leads) (a, t) = elim (Bool-cases (i == p_index)) [
    | inl z ↦ (
      m,
      Down-parent d i m (==→eq i p_index z) t.0 there down,
      there,
      Leads-keep (d' ∷ ds) m j leads t,
    )
    | inr z ↦ (
      m,
      Down-elsewhere d i m (λ p. ground (arith, p)) a t.0 there down,
      there,
      Leads-keep (d' ∷ ds) m j leads t,
    )
  ]
