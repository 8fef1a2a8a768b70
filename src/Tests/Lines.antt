-- ===== src/Tests/Lines.antt =====
-- A serial line that is busy for up to three questions after each character.
use oslab_nju.Prelude.{
  ℕ, ◌-◌, ◌%◌, ◌≡◌, refl, List, [], ◌∷◌, ◌++◌, ok, ◌==◌, if◌then◌else◌, Bool-cases, inl, inr, arith,
}
use oslab_nju.Disk.{Ports}
use oslab_nju.Start.Serial.{Line, serial_idle, put_char, put_text}

-- What the line is busy with, modulo 4, and what has been sent.
abbrev Wire : Type 0
Wire = ℕ × List ℕ

abbrev wire : Ports
wire = record {
  State = Wire;
  in_byte = λ port s. (if s.0 % 4 == 0 then 0x20 else 0, (s.0 % 4 - 1, s.1));
  out_byte = λ port v s. if port == 0x3f8 then (3, s.1 ++ (v ∷ [])) else s;
  in_long = λ port s. (0, s);
  out_long = λ port v s. s;
}

abbrev wire_line : Line wire
wire_line = record {
  sent = λ s. s.1;
  busy = λ s. s.0 % 4;
  patience = 3;
  quick = λ s. omega arith;
  answer = λ s. elim (Bool-cases (s.0 % 4 == 0)) [ inl e ↦ rw e refl | inr e ↦ rw e refl ];
  asked = λ s. omega arith;
  asked_keeps = λ s. refl;
  send = λ s ch e. refl;
}

line_run : put_text wire 4 (b'o' ∷ b'k' ∷ []) (2, []) ≡ ok (3, b'o' ∷ b'k' ∷ [])
unfolding put_text put_char serial_idle
line_run = refl
