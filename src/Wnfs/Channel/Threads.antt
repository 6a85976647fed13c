-- ===== src/Wnfs/Channel/Threads.antt =====
-- `push_frame` and `pop_frame` of extensions/aille_wnfs.hpp run by two threads at once: one step
-- for each access to what they share. A counter is counted without end here, and is that number
-- modulo 2 ^ 64 in memory. A load of the other thread's counter may give any value from the last
-- one that it gave up to the present one; what was written before that value was stored is seen.
pub mod Shared
pub mod Served
mod Tests
use ailee_finance_unified_ru.Prelude.{
  ℕ, ◌+◌, ◌%◌, ◌≤◌, ◌≡◌, Bool, true, false, List, [], ◌∷◌, ◌++◌, ◌==◌, leb, get_or, set, replicate,
}
use ailee_finance_unified_ru.Wnfs.Channel.{ring_capacity, size_mod, sub_size, slot}

-- Where `push_frame` stands: with the counters loaded, or with the frame in its slot.
pub data Writer (A : Type 0) : Type 0 where
  idle : Writer A
  loaded : A → ℕ → Writer A
  stored : A → Writer A

-- Where `pop_frame` stands: with the counters loaded, or with the frame copied out.
pub data Reader (A : Type 0) : Type 0 where
  idle : Reader A
  loaded : ℕ → Reader A
  copied : A → Reader A

-- `accepted` and `delivered` are the frames for which `push_frame` and `pop_frame` return true.
pub record Threads (A : Type 0) : Type 0 where
  pub ring_buffer : List A
  pub write_head : ℕ
  pub read_tail : ℕ
  pub head_seen : ℕ
  pub tail_seen : ℕ
  pub writer : Writer A
  pub reader : Reader A
  pub accepted : List A
  pub delivered : List A

-- A counter in memory.
abbrev pub in_memory : ℕ → ℕ
in_memory n = n % size_mod

-- The test of `push_frame` for a full ring, and of `pop_frame` for an empty one.
abbrev pub is_full : ℕ → ℕ → Bool
is_full head tail = leb ring_capacity (sub_size (in_memory head) (in_memory tail))

abbrev pub is_empty : ℕ → ℕ → Bool
is_empty head tail = in_memory tail == in_memory head

module _ {A : Type 0} (blank : A) where
  -- The steps of `push_frame`.
  pub data Push : Threads A → Threads A → Type 0 where
    push_load :
        (s : Threads A) (frame : A) (tail : ℕ)
        → s.writer ≡ Writer.idle
        → s.tail_seen ≤ tail
        → tail ≤ s.read_tail
        → Push s (record s { writer = Writer.loaded frame tail; tail_seen = tail })
    push_full :
        (s : Threads A) (frame : A) (tail : ℕ)
        → s.writer ≡ Writer.loaded frame tail
        → is_full s.write_head tail ≡ true
        → Push s (record s { writer = Writer.idle })
    push_store :
        (s : Threads A) (frame : A) (tail : ℕ)
        → s.writer ≡ Writer.loaded frame tail
        → is_full s.write_head tail ≡ false
        → Push s (record s {
          writer = Writer.stored frame;
          ring_buffer = set s.ring_buffer (slot (in_memory s.write_head)) frame;
        })
    push_publish :
        (s : Threads A) (frame : A)
        → s.writer ≡ Writer.stored frame
        → Push s (record s {
          writer = Writer.idle;
          write_head = s.write_head + 1;
          accepted = s.accepted ++ (frame ∷ []);
        })

  -- The steps of `pop_frame`.
  pub data Pop : Threads A → Threads A → Type 0 where
    pop_load :
        (s : Threads A) (head : ℕ)
        → s.reader ≡ Reader.idle
        → s.head_seen ≤ head
        → head ≤ s.write_head
        → Pop s (record s { reader = Reader.loaded head; head_seen = head })
    pop_empty :
        (s : Threads A) (head : ℕ)
        → s.reader ≡ Reader.loaded head
        → is_empty head s.read_tail ≡ true
        → Pop s (record s { reader = Reader.idle })
    pop_copy :
        (s : Threads A) (head : ℕ)
        → s.reader ≡ Reader.loaded head
        → is_empty head s.read_tail ≡ false
        → Pop s (record s {
          reader = Reader.copied (get_or s.ring_buffer (slot (in_memory s.read_tail)) blank);
        })
    pop_publish :
        (s : Threads A) (frame : A)
        → s.reader ≡ Reader.copied frame
        → Pop s (record s {
          reader = Reader.idle;
          read_tail = s.read_tail + 1;
          delivered = s.delivered ++ (frame ∷ []);
        })

  -- One step of one of the two threads.
  pub data Step : Threads A → Threads A → Type 0 where
    by_writer : (s t : Threads A) → Push s t → Step s t
    by_reader : (s t : Threads A) → Pop s t → Step s t

  abbrev pub opened : Threads A
  opened = record {
    ring_buffer = replicate ring_capacity blank;
    write_head = 0;
    read_tail = 0;
    head_seen = 0;
    tail_seen = 0;
    writer = Writer.idle;
    reader = Reader.idle;
    accepted = [];
    delivered = [];
  }

  -- What the two threads can come to, in any order of their steps.
  pub data Run : Threads A → Threads A → Type 0 where
    none_yet : (s : Threads A) → Run s s
    one_more : (s t u : Threads A) → Run s t → Step t u → Run s u

  -- What the reader comes to by `n` steps, the writer taking none.
  pub data PopRun : ℕ → Threads A → Threads A → Type 0 where
    none_yet : (s : Threads A) → PopRun 0 s s
    one_more : (n : ℕ) (s t u : Threads A) → PopRun n s t → Pop t u → PopRun (n + 1) s u
