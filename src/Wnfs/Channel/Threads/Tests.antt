-- ===== src/Wnfs/Channel/Threads/Tests.antt =====
-- One frame through the ring, step by step.
use ailee_finance_unified_ru.Prelude.{
  ℕ, ◌+◌, ◌≤◌, ◌≡◌, ◌≢◌, refl, [], ◌∷◌, ◌++◌, arith, length, set, take,
}
use ailee_finance_unified_ru.Wnfs.Channel.{ring_capacity, slot}
use ailee_finance_unified_ru.Wnfs.Channel.Threads.{
  Writer, Reader, Threads, in_memory, opened, Run, by_writer, by_reader, push_load, push_store,
  push_publish, pop_load, none_yet, one_more,
}
use ailee_finance_unified_ru.Wnfs.Channel.Threads.Served.{Run-served, Run-apart}

-- The frame 7 in its slot, then counted; then a second frame with the reader at the first.
abbrev at_load : Threads ℕ
at_load = record (opened 0) { writer = Writer.loaded 7 0; tail_seen = 0 }

abbrev at_store : Threads ℕ
at_store = record at_load {
  writer = Writer.stored 7;
  ring_buffer = set at_load.ring_buffer (slot (in_memory 0)) 7;
}

abbrev published : Threads ℕ
published = record at_store { writer = Writer.idle; write_head = 0 + 1; accepted = [] ++ (7 ∷ []) }

abbrev both : Threads ℕ
both = record (record published { writer = Writer.loaded 8 0; tail_seen = 0 }) {
  reader = Reader.loaded 1;
  head_seen = 1;
}

published-reached : Run 0 (opened 0) published
published-reached =
    one_more (opened 0) at_store published
      (one_more (opened 0) at_load at_store
        (one_more (opened 0) (opened 0) at_load (none_yet (opened 0)) (
          by_writer (opened 0) at_load (push_load (opened 0) 7 0 refl (omega arith) (omega arith))))
        (by_writer at_load at_store (push_store at_load 7 0 refl refl)))
      (by_writer at_store published (push_publish at_store 7 refl))

both-reached : Run 0 (opened 0) both
both-reached =
    let again = record published { writer = Writer.loaded 8 0; tail_seen = 0 } in
    one_more (opened 0) again both
      (one_more (opened 0) published again published-reached
        (by_writer published again (push_load published 8 0 refl (omega arith) (omega arith))))
      (by_reader again both (pop_load again 1 refl (omega arith) (omega arith)))

Run-served_example :
    (published.delivered ≡ take published.read_tail published.accepted)
    × (published.read_tail ≤ published.write_head)
    × (published.write_head ≤ published.read_tail + ring_capacity)
    × (length published.accepted ≡ published.write_head)
Run-served_example = Run-served 0 published published-reached

Run-apart_example : slot (in_memory 1) ≢ slot (in_memory 0)
Run-apart_example = Run-apart 0 both 8 0 1 both-reached refl refl refl refl
