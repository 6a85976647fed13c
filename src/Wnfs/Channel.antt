-- ===== src/Wnfs/Channel.antt =====
-- The ring buffer of frames, `WNFSChannel` of extensions/aille_wnfs.hpp, each call run whole.
-- `blank` is the frame that the ring starts with.
pub mod Queue
pub mod Refine
pub mod Threads
mod Tests
use ailee_finance_unified_ru.Prelude.{
  ℕ, ◌+◌, ◌-◌, ◌%◌, ◌^◌, Bool, true, false, List, [], ◌∷◌, leb, ◌==◌, if◌then◌else◌, get_or, set,
  replicate,
}
use Queue.{Call, put, take_into, Reply, stored, taken}

abbrev pub ring_capacity : ℕ
ring_capacity = 1024

-- `std::size_t` arithmetic wraps.
abbrev pub size_mod : ℕ
size_mod = 2 ^ 64

abbrev pub sub_size : ℕ → ℕ → ℕ
sub_size a b = (a + size_mod - b) % size_mod

abbrev pub next_size : ℕ → ℕ
next_size a = (a + 1) % size_mod

pub record Channel {ℓ} (A : Type ℓ) : Type ℓ where
  pub ring_buffer : List A
  pub write_head : ℕ
  pub read_tail : ℕ

-- `head & (WNFS_RING_CAPACITY - 1)`: the capacity is a power of two.
abbrev pub slot : ℕ → ℕ
slot i = i % ring_capacity

module _ {ℓ} {A : Type ℓ} (blank : A) where
  pub fresh : Channel A
  fresh = record { ring_buffer = replicate ring_capacity blank; write_head = 0; read_tail = 0 }

  -- The frame is what goes to `out_frame`, which a refusal leaves as it was.
  pub pop_frame : Channel A → A → Bool × A × Channel A
  pop_frame c out_frame = if c.read_tail == c.write_head then (false, out_frame, c) else (
    true,
    get_or c.ring_buffer (slot c.read_tail) blank,
    record c { read_tail = next_size c.read_tail },
  )

module _ {ℓ} {A : Type ℓ} where
  pub push_frame : Channel A → A → Bool × Channel A
  push_frame c frame =
      if leb ring_capacity (sub_size c.write_head c.read_tail) then (false, c) else (
        true,
        record c {
          ring_buffer = set c.ring_buffer (slot c.write_head) frame;
          write_head = next_size c.write_head;
        },
      )

  pub size : Channel A → ℕ
  size c = if leb c.read_tail c.write_head then c.write_head - c.read_tail else 0

  pub reset : Channel A → Channel A
  reset c = record c { write_head = 0; read_tail = 0 }

module _ {ℓ} {A : Type ℓ} (blank : A) where
  -- A client's calls in order, with what each returns.
  pub run : Channel A → List (Call A) → List (Reply A)
  run c [] = []
  run c (put x ∷ calls) = let (s, c') = push_frame c x in stored s ∷ run c' calls
  run c (take_into o ∷ calls) = let (s, x, c') = pop_frame blank c o in taken s x ∷ run c' calls
