-- ===== src/Proc/Lists.antt =====
-- kernel/kernel/list.c: singly linked lists of PCBs behind a dummy head. A walk takes as many rounds
-- as there are PCB objects, 15, and `spin` says that it would go on.
use oslab_nju.Prelude.{
  ℕ, zero, suc, true, false, Run, ok, abort, spin, ◌>>=◌, ◌>>◌, assert, not, ◌==◌, if◌then◌else◌,
}
use oslab_nju.Proc.{Ptr, null, Pcbs, load, store}

abbrev pub walk_fuel : ℕ
walk_fuel = 15

-- `for(p=head;p->next!=NULL;p = p->next);`
unfoldable pub list_last : ℕ → Pcbs → Ptr → Run Ptr
list_last zero m p = spin
list_last (suc k) m p = do
  c ← load m p
  elim (c.next == null) [ true ↦ ok p | false ↦ list_last k m c.next ]

unfoldable pub list_add : Ptr → Ptr → Pcbs → Run Pcbs
list_add head new m = do
  p ← list_last walk_fuel m head
  last ← load m p
  d ← load m new
  let m1 = store m new (record d { next = last.next })
  last ← load m1 p
  ok (store m1 p (record last { next = new }))

-- `for(p=head;p->next!=NULL;p = p->next) if(p->next == data)break;`
unfoldable pub list_before : ℕ → Pcbs → Ptr → Ptr → Run Ptr
list_before zero m old p = spin
list_before (suc k) m old p = do
  c ← load m p
  elim (c.next == null) [
    | true ↦ ok p
    | false ↦ elim (c.next == old) [ true ↦ ok p | false ↦ list_before k m old c.next ]
  ]

unfoldable pub list_delete : Ptr → Ptr → Pcbs → Run Pcbs
list_delete head old m = do
  p ← list_before walk_fuel m old head
  c ← load m p
  assert (not (c.next == null))
  q ← load m c.next
  ok (store m p (record c { next = q.next }))

unfoldable pub list_head : Ptr → Pcbs → Run Ptr
list_head head m = do c ← load m head; if c.next == null then abort else ok c.next
