-- ===== src/Wnfs/Channel/Threads/Served.antt =====
-- Whatever the order of the two threads' steps: what the reader gets is what the writer put.
use ailee_finance_unified_ru.Prelude.{ℕ, ◌+◌, ◌≤◌, ◌≡◌, ◌≢◌, false, arith, length, take}
use ailee_finance_unified_ru.Wnfs.Channel.{ring_capacity, slot}
use ailee_finance_unified_ru.Wnfs.Channel.Threads.{
  Writer, Reader, Threads, in_memory, is_full, is_empty, opened, Run, none_yet, one_more,
}
use ailee_finance_unified_ru.Wnfs.Channel.Threads.Shared.{
  IsWriting, IsReading, IsShared, slot-ne, not_full, not_empty, opened-IsShared, Step-IsShared,
}

module _ {A : Type 0} (blank : A) where
  Run-IsShared : (s t : Threads A) → Run blank s t → IsShared blank s → IsShared blank t
  Run-IsShared _ _ (none_yet s) v = v
  Run-IsShared _ _ (one_more s t u r e) v = Step-IsShared blank t u e (Run-IsShared s t r v)

  -- Whatever the order of the steps of one writing and one reading thread, and however old the
  -- counters that each loads of the other, the frames delivered are the first of the frames
  -- accepted, in their order and each once, and the ring holds at most 1024 frames.
  pub Run-served :
      (s : Threads A)
      → Run blank (opened blank) s
      → (s.delivered ≡ take s.read_tail s.accepted)
        × (s.read_tail ≤ s.write_head)
        × (s.write_head ≤ s.read_tail + ring_capacity)
        × (length s.accepted ≡ s.write_head)
  Run-served s r =
      let v = Run-IsShared (opened blank) s r (opened-IsShared blank) in
      (v.served, v.ordered, omega (arith, v.room, v.tail_old), v.counted)

  -- In every state that the two threads can come to, when the writer may store a frame and the
  -- reader may copy one, their slots differ.
  pub Run-apart :
      (s : Threads A) (frame : A) (tail head : ℕ)
      → Run blank (opened blank) s
      → s.writer ≡ Writer.loaded frame tail
      → is_full s.write_head tail ≡ false
      → s.reader ≡ Reader.loaded head
      → is_empty head s.read_tail ≡ false
      → slot (in_memory s.write_head) ≢ slot (in_memory s.read_tail)
  Run-apart s frame tail head r at_writer room at_reader filled =
      let v = Run-IsShared (opened blank) s r (opened-IsShared blank) in
      let seen : IsWriting blank s.write_head s.tail_seen s.ring_buffer (Writer.loaded frame tail) =
        rw (at_writer) at v.writing in
      let seen' : IsReading blank s.read_tail s.head_seen s.accepted (Reader.loaded head) =
        rw (at_reader) at v.reading in
      let near =
        not_full blank s.write_head s.tail_seen (omega (arith, v.ordered, v.tail_old)) v.room
          (rw (← seen) room) in
      let less = not_empty blank s.head_seen s.read_tail v.head_new (rw (← seen') filled) in
      slot-ne blank s.read_tail s.write_head (omega (arith, v.head_old)) (omega (arith, v.tail_old))

  -- What the writer works on is as it was.
  abbrev pub IsUntouched : Threads A → Threads A → Type 0
  IsUntouched s t =
      (t.writer ≡ s.writer)
      × (t.write_head ≡ s.write_head)
      × (t.tail_seen ≡ s.tail_seen)
      × (t.ring_buffer ≡ s.ring_buffer)
      × (t.accepted ≡ s.accepted)
