-- ===== src/Fs/LastName.antt =====
-- The last name of a path: getLastLevelName of fs.c.
use oslab_nju.Prelude.{
  ℕ, zero, suc, ◌+◌, ◌<◌, ◌≤◌, ◌≡◌, ◌≢◌, ◌∙◌, sym, ap, refl, false, List, [], ◌∷◌, ◌++◌, ◌==◌,
  arith, length, length-append, get_or, drop,
}
use oslab_nju.Fs.Path.{slash, name_offset, get_last_level_name, inner_slashes}
use oslab_nju.Fs.Resolve.{render, IsLast}

get_or-append :
    (pre rest : List ℕ) (n : ℕ) → get_or (pre ++ rest) (length pre + n) 0 ≡ get_or rest n 0
get_or-append [] rest n = ap (λ i. get_or rest i 0) (omega arith)
get_or-append (c ∷ cs) rest n =
    ap (λ i. get_or ((c ∷ cs) ++ rest) i 0) shift ∙ get_or-append cs rest n
  where
    shift : suc (length cs) + n ≡ suc (length cs + n)
    shift = omega arith

-- A slash in front of the last character counts.
no_inner :
    (name : List ℕ) (n : ℕ)
    → inner_slashes name ≡ 0
    → n + 1 < length name
    → (get_or name n 0 == slash) ≡ false
no_inner [] n e h = absurd (omega arith)
no_inner (c ∷ []) n e h = absurd (omega arith)
no_inner (c ∷ d ∷ cs) zero e h = ground (arith, e)
no_inner (c ∷ d ∷ cs) (suc n) e h = no_inner (d ∷ cs) n (ground (arith, e)) (omega arith)

module _ (pre name : List ℕ) (n : IsLast name) where
  size : length (pre ++ (slash ∷ name)) ≡ length pre + suc (length name)
  size = length-append pre (slash ∷ name)

  some_name : 0 < length name
  some_name = not_zero name n.full
    where
      not_zero : (s : List ℕ) → s ≢ [] → 0 < length s
      not_zero [] h = absurd (h refl)
      not_zero (c ∷ cs) h = omega arith

  name_offset_lem :
      (m i : ℕ)
      → i ≡ suc (length pre + m)
      → m ≤ length name
      → name_offset i (pre ++ (slash ∷ name)) ≡ suc (length pre)
  unfolding name_offset
  name_offset_lem m zero e h = absurd (omega (arith, e))
  name_offset_lem zero (suc i) e h =
      let here = get_or-append pre (slash ∷ name) 0 in
      let at : i ≡ length pre + 0 = omega (arith, e) in
      let slash_at : get_or (pre ++ (slash ∷ name)) i 0 ≡ slash =
        ap (λ x. get_or (pre ++ (slash ∷ name)) x 0) at ∙ here in
      ground (arith, slash_at, size, some_name, e)
  name_offset_lem (suc m) (suc i) e h =
      let here = get_or-append pre (slash ∷ name) (suc m) in
      let at : i ≡ length pre + suc m = omega (arith, e) in
      let same : get_or (pre ++ (slash ∷ name)) i 0 ≡ get_or name m 0 =
        ap (λ x. get_or (pre ++ (slash ∷ name)) x 0) at ∙ here in
      ground
        (arith, same, size, e, no_inner name m n.single, name_offset_lem m i (omega (arith, e)))

  drop-past : drop (suc (length pre)) (pre ++ (slash ∷ name)) ≡ name
  drop-past = past pre
    where
      past : (p : List ℕ) → drop (suc (length p)) (p ++ (slash ∷ name)) ≡ name
      past [] = refl
      past (c ∷ cs) = past cs

  last_name : get_last_level_name (pre ++ (slash ∷ name)) ≡ name
  unfolding get_last_level_name
  last_name =
      ap (λ i. drop i (pre ++ (slash ∷ name)))
        (name_offset_lem (length name) (length (pre ++ (slash ∷ name))) (omega (arith, size))
          (omega arith))
      ∙ drop-past

append_assoc : (a b c : List ℕ) → (a ++ b) ++ c ≡ a ++ (b ++ c)
append_assoc [] b c = refl
append_assoc (x ∷ xs) b c = ap (λ l. x ∷ l) (append_assoc xs b c)

render-split :
    (ds : List (List ℕ)) (name : List ℕ)
    → (pre : List ℕ) × (slash ∷ render ds name ≡ pre ++ (slash ∷ name))
render-split [] name = ([], refl)
render-split (d ∷ ds) name =
    let (pre, e) = render-split ds name in
    (
      (slash ∷ d) ++ pre,
      ap (λ l. (slash ∷ d) ++ l) e ∙ sym (append_assoc (slash ∷ d) pre (slash ∷ name)),
    )

-- `getLastLevelName` of an absolute path is the name behind its directories.
pub get_last_level_name_lem :
    (ds : List (List ℕ)) (name : List ℕ)
    → IsLast name
    → get_last_level_name (slash ∷ render ds name) ≡ name
get_last_level_name_lem ds name n =
    let (pre, e) = render-split ds name in ap get_last_level_name e ∙ last_name pre name n
