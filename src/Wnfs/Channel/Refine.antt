-- ===== src/Wnfs/Channel/Refine.antt =====
-- A channel behaves as the bounded queue of the frames that it holds, also where the counters wrap.
use mathlib.Core.Path.{ap₂}
use ailee_finance_unified_ru.Prelude.{
  ℕ, zero, suc, ◌+◌, ◌-◌, ◌≤◌, ◌<◌, ◌≡◌, ◌≢◌, refl, ap, List, [], ◌∷◌, ◌++◌, arith, length, get_or,
  set, length-set, length-replicate,
}
use ailee_finance_unified_ru.Prelude.Ring.{get_or-set_self, get_or-set_ne}
use ailee_finance_unified_ru.Wnfs.Channel.{
  Channel, ring_capacity, size_mod, sub_size, next_size, slot, fresh, push_frame, pop_frame, run,
  size,
}
use ailee_finance_unified_ru.Wnfs.Channel.Queue
use ailee_finance_unified_ru.Wnfs.Channel.Queue.{Call, put, take_into, Reply, stored, taken}

module _ {A : Type 0} where
  pub record IsValid (c : Channel A) : Type 0 where
    pub slots : length c.ring_buffer ≡ ring_capacity
    pub head_in : c.write_head < size_mod
    pub tail_in : c.read_tail < size_mod
    pub room : sub_size c.write_head c.read_tail ≤ ring_capacity

module _ {A : Type 0} (blank : A) where
  -- The `n` frames from counter `t` on.
  abbrev window : List A → ℕ → ℕ → List A
  window buf t zero = []
  window buf t (suc n) = get_or buf (slot t) blank ∷ window buf (t + 1) n

  abbrev pub contents : Channel A → List A
  contents c = window c.ring_buffer c.read_tail (sub_size c.write_head c.read_tail)

  length-window : (buf : List A) (t n : ℕ) → length (window buf t n) ≡ n
  length-window buf t zero = refl
  length-window buf t (suc n) = ap suc (length-window buf (t + 1) n)

  -- Only the counter's slot matters.
  window_slot : (buf : List A) (t u n : ℕ) → slot t ≡ slot u → window buf t n ≡ window buf u n
  window_slot buf t u zero e = refl
  window_slot buf t u (suc n) e = rw (e, window_slot buf (t + 1) (u + 1) n (omega arith))

  -- Writing just past a window extends it.
  window-set :
      (buf : List A) (t n i : ℕ) (x : A)
      → length buf ≡ ring_capacity
      → n < ring_capacity
      → i ≡ slot (t + n)
      → window (set buf i x) t (suc n) ≡ window buf t n ++ (x ∷ [])
  window-set buf t zero i x full h e =
      let here : i ≡ slot t = omega arith in
      rw here (ap (λ v. v ∷ []) (get_or-set_self buf (slot t) x blank (omega arith)))
  window-set buf t (suc n) i x full h e =
      ap₂ ◌∷◌ (get_or-set_ne buf i (slot t) x blank (omega arith))
        (window-set buf (t + 1) n i x full (omega arith) (omega arith))

  -- `window` matches on `suc`, the code tests the counters.
  window_of_ne_zero :
      (buf : List A) (t n : ℕ)
      → n ≢ 0
      → window buf t n ≡ get_or buf (slot t) blank ∷ window buf (t + 1) (n - 1)
  window_of_ne_zero buf t zero p = absurd (p refl)
  window_of_ne_zero buf t (suc n) p = ap (λ k. window buf t (suc k)) (omega arith)

  -- A new channel is valid and empty.
  pub fresh-IsValid : IsValid (fresh blank) × (contents (fresh blank) ≡ [])
  unfolding fresh
  fresh-IsValid = (
    record {
      slots = length-replicate ring_capacity blank;
      head_in = omega arith;
      tail_in = omega arith;
      room = omega arith;
    },
    refl,
  )

  -- `push_frame` keeps a channel well formed: the buffer's size, the range of the counters,
  -- and at most 1024 frames between them.
  pub push_frame-IsValid : (c : Channel A) (x : A) → IsValid c → IsValid (push_frame c x).1
  unfolding push_frame
  push_frame-IsValid c x v = ground (arith, length-set c.ring_buffer (slot c.write_head) x)

  pub pop_frame-IsValid : (c : Channel A) (o : A) → IsValid c → IsValid (pop_frame blank c o).2
  unfolding pop_frame
  pop_frame-IsValid c o v = ground arith

  -- `push_frame` answers as the bounded queue does, and leaves the ring holding its queue.
  pub push_frame_refines :
      (c : Channel A) (x : A)
      → IsValid c
      → let (s, c') = push_frame c x in (s, contents c') ≡ Queue.push ring_capacity (contents c) x
  unfolding push_frame Queue.push
  push_frame_refines c x v =
      let n = sub_size c.write_head c.read_tail in
      let next = next_size c.write_head in
      let step : n < ring_capacity → sub_size next c.read_tail ≡ suc n = λ h. omega arith in
      ground (
        arith,
        length-window c.ring_buffer c.read_tail n,
        step,
        window-set c.ring_buffer c.read_tail n (slot c.write_head) x,
      )

  -- `pop_frame` answers as the bounded queue does, and leaves the ring holding the rest.
  pub pop_frame_refines :
      (c : Channel A) (o : A)
      → IsValid c
      → let (s, x, c') = pop_frame blank c o in (s, x, contents c') ≡ Queue.pop (contents c) o
  unfolding pop_frame Queue.pop
  pop_frame_refines c o v =
      let n = sub_size c.write_head c.read_tail in
      let t = c.read_tail in
      let next = next_size t in
      let step : n ≢ 0 → sub_size c.write_head next ≡ n - 1 = λ h. omega arith in
      ground (
        arith,
        step,
        window_of_ne_zero c.ring_buffer t n,
        window_slot c.ring_buffer (t + 1) next (n - 1) (omega arith),
      )

  -- From a well-formed channel, every sequence of `push_frame` and `pop_frame` calls returns
  -- what the queue of at most 1024 frames that the channel holds returns, also where the
  -- counters wrap.
  pub run_refines :
      (calls : List (Call A)) (c : Channel A)
      → IsValid c
      → run blank c calls ≡ Queue.run ring_capacity (contents c) calls
  unfolding run Queue.run
  run_refines [] c v = refl
  run_refines (put x ∷ calls) c v =
      rw (
        run_refines calls (push_frame c x).1 (push_frame-IsValid c x v),
        ← push_frame_refines c x v,
      )
  run_refines (take_into o ∷ calls) c v = rw (
    run_refines calls (pop_frame blank c o).2 (pop_frame-IsValid c o v),
    ← pop_frame_refines c o v,
  )

  -- `size` of a well-formed channel is the number of frames held, while the head's counter is
  -- not below the tail's.
  pub size-eq-length :
      (c : Channel A) → IsValid c → c.read_tail ≤ c.write_head → size c ≡ length (contents c)
  unfolding size
  size-eq-length c v h =
      ground (arith, length-window c.ring_buffer c.read_tail (sub_size c.write_head c.read_tail))
