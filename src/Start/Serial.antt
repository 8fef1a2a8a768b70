-- ===== src/Start/Serial.antt =====
-- The serial port: serialIdle and putChar of kernel/kernel/serial.c, over a line with the rules of its ports.
use Prim.Native.Nat.{bit_and}
use oslab_nju.Prelude.{
  ℕ, zero, suc, ◌+◌, ◌-◌, ◌<◌, ◌≤◌, ◌≡◌, ◌∙◌, sym, ap, refl, Bool, true, false, not, List, [], ◌∷◌,
  ◌++◌, Run, ok, spin, ◌>>=◌, ◌==◌, if◌then◌else◌, Bool-cases, inl, inr, arith, ==→eq,
}
use oslab_nju.Disk.{Ports}
use oslab_nju.Start.{serial_port}

module _ (p : Ports) where
  open p use {State, in_byte, out_byte}

  unfoldable pub serial_idle : State → Bool × State
  serial_idle s = let (b, s') = in_byte (serial_port + 5) s in (not (bit_and b 0x20 == 0), s')

  -- `putChar`: the line is asked until it is idle, `fuel` times at most.
  unfoldable pub put_char : ℕ → ℕ → State → Run State
  put_char zero ch s = spin
  put_char (suc fuel) ch s =
      let (is_idle, s') = serial_idle s in
      let again = put_char fuel ch s' in if is_idle then ok (out_byte serial_port ch s') else again

  -- Character by character, as `printk` and `displayMessage` send a text.
  unfoldable pub put_text : ℕ → List ℕ → State → Run State
  put_text fuel [] s = ok s
  put_text fuel (c ∷ cs) s = do s ← put_char fuel c s; put_text fuel cs s

-- A line: what has been sent, and for how many more questions it is busy, at most `patience`. Asked
-- when it is idle it says so, and what is sent to it then goes out.
pub record Line (p : Ports) : Type 0 where
  pub sent : p.State → List ℕ
  pub busy : p.State → ℕ
  pub patience : ℕ
  pub quick : (s : p.State) → busy s ≤ patience
  pub answer : (s : p.State) → (bit_and (p.in_byte 0x3fd s).0 0x20 == 0) ≡ not (busy s == 0)
  pub asked : (s : p.State) → busy (p.in_byte 0x3fd s).1 ≡ busy s - 1
  pub asked_keeps : (s : p.State) → sent (p.in_byte 0x3fd s).1 ≡ sent s
  pub send :
      (s : p.State) (ch : ℕ) → busy s ≡ 0 → sent (p.out_byte 0x3f8 ch s) ≡ sent s ++ (ch ∷ [])

append-cons : (a b : List ℕ) (c : ℕ) → (a ++ (c ∷ [])) ++ b ≡ a ++ (c ∷ b)
append-cons [] b c = refl
append-cons (x ∷ xs) b c = ap (λ l. x ∷ l) (append-cons xs b c)

append-nil : (a : List ℕ) → a ++ [] ≡ a
append-nil [] = refl
append-nil (x ∷ xs) = ap (λ l. x ∷ l) (append-nil xs)

module _ {p : Ports} (l : Line p) where
  put_char_lem :
      (fuel ch : ℕ) (s : p.State)
      → l.busy s < fuel
      → (s' : p.State) × (put_char p fuel ch s ≡ ok s') × (l.sent s' ≡ l.sent s ++ (ch ∷ []))
  unfolding put_char serial_idle
  put_char_lem zero ch s h = absurd (omega arith)
  put_char_lem (suc fuel) ch s h =
      let s1 : p.State = (p.in_byte 0x3fd s).1 in
      elim (Bool-cases (l.busy s == 0)) [
        | inl e ↦
            let idle : (bit_and (p.in_byte 0x3fd s).0 0x20 == 0) ≡ false = l.answer s ∙ ap not e in
            let at : l.busy s1 ≡ 0 = omega (arith, l.asked s, ==→eq (l.busy s) 0 e) in
            (
              p.out_byte 0x3f8 ch s1,
              rw idle refl,
              l.send s1 ch at ∙ ap (λ t. t ++ (ch ∷ [])) (l.asked_keeps s),
            )
        | inr e ↦
            let waits : (bit_and (p.in_byte 0x3fd s).0 0x20 == 0) ≡ true = l.answer s ∙ ap not e in
            let (s', run, sent) = put_char_lem fuel ch s1 (ground (arith, l.asked s, h, e)) in
            (s', rw waits run, sent ∙ ap (λ t. t ++ (ch ∷ [])) (l.asked_keeps s))
      ]

  -- A text always gets to the line, whole and in order, if the fuel is more than the line's
  -- patience.
  pub put_text_lem :
      (fuel : ℕ) (text : List ℕ) (s : p.State)
      → l.patience < fuel
      → (s' : p.State) × (put_text p fuel text s ≡ ok s') × (l.sent s' ≡ l.sent s ++ text)
  unfolding put_text
  put_text_lem fuel [] s h = (s, refl, sym (append-nil (l.sent s)))
  put_text_lem fuel (c ∷ cs) s h =
      let (s1, run, sent) = put_char_lem fuel c s (omega (arith, l.quick s, h)) in
      let (s2, run', sent') = put_text_lem fuel cs s1 h in
      (s2, rw run run', sent' ∙ ap (λ t. t ++ cs) sent ∙ append-cons (l.sent s) cs c)
