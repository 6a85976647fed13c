-- ===== src/Wnfs/Channel/Threads/Shared.antt =====
-- What every step of the two threads keeps: the counters' distances, and where each frame is.
use native.Mathlib.Decide.{dec_lt}
use native.Mathlib.Numerals.{add-one}
use ailee_finance_unified_ru.Prelude.{
  ℕ, zero, suc, ◌+◌, ◌-◌, ◌≤◌, ◌<◌, ◌≡◌, ◌≢◌, refl, sym, ◌∙◌, false, List, [], ◌∷◌, ◌++◌, arith,
  length, get_or, set, take, length-set, length-replicate, length-append,
}
use ailee_finance_unified_ru.Prelude.Ring.{get_or-set_self, get_or-set_ne}
use ailee_finance_unified_ru.Wnfs.Channel.{ring_capacity, sub_size, slot}
use ailee_finance_unified_ru.Wnfs.Channel.Threads.{
  Writer, Reader, Threads, in_memory, is_full, is_empty, Push, Pop, Step, opened, by_writer,
  by_reader, push_load, push_full, push_store, push_publish, pop_load, pop_empty, pop_copy,
  pop_publish,
}

module _ {A : Type 0} (blank : A) where
  -- Where the writer stands is in order, by its counters and the ring.
  abbrev pub IsWriting : ℕ → ℕ → List A → Writer A → Type 0
  IsWriting write_head tail_seen ring Writer.idle = Unit
  IsWriting write_head tail_seen ring (Writer.loaded frame tail) = tail ≡ tail_seen
  IsWriting write_head tail_seen ring (Writer.stored frame) =
      (write_head < tail_seen + ring_capacity)
      × (get_or ring (slot (in_memory write_head)) blank ≡ frame)

  -- Where the reader stands is in order, by its counters and the frames accepted.
  abbrev pub IsReading : ℕ → ℕ → List A → Reader A → Type 0
  IsReading read_tail head_seen accepted Reader.idle = Unit
  IsReading read_tail head_seen accepted (Reader.loaded head) = head ≡ head_seen
  IsReading read_tail head_seen accepted (Reader.copied frame) =
      (read_tail < head_seen) × (get_or accepted read_tail blank ≡ frame)

  pub record IsShared (s : Threads A) : Type 0 where
    pub slots : length s.ring_buffer ≡ ring_capacity
    pub ordered : s.read_tail ≤ s.write_head
    pub room : s.write_head ≤ s.tail_seen + ring_capacity
    pub tail_old : s.tail_seen ≤ s.read_tail
    pub head_old : s.head_seen ≤ s.write_head
    pub head_new : s.read_tail ≤ s.head_seen
    pub counted : length s.accepted ≡ s.write_head
    pub kept :
        (n : ℕ)
        → s.read_tail ≤ n
        → n < s.write_head
        → get_or s.ring_buffer (slot (in_memory n)) blank ≡ get_or s.accepted n blank
    pub served : s.delivered ≡ take s.read_tail s.accepted
    pub writing : IsWriting s.write_head s.tail_seen s.ring_buffer s.writer
    pub reading : IsReading s.read_tail s.head_seen s.accepted s.reader

  get_or-append :
      (xs ys : List A) (n : ℕ) → n < length xs → get_or (xs ++ ys) n blank ≡ get_or xs n blank
  get_or-append [] ys n h = ground arith
  get_or-append (x ∷ xs) ys zero h = refl
  get_or-append (x ∷ xs) ys (suc n) h = get_or-append xs ys n (omega arith)

  get_or-snoc : (xs : List A) (x : A) (n : ℕ) → length xs ≡ n → get_or (xs ++ (x ∷ [])) n blank ≡ x
  get_or-snoc [] x zero h = refl
  get_or-snoc [] x (suc n) h = ground arith
  get_or-snoc (y ∷ xs) x zero h = ground arith
  get_or-snoc (y ∷ xs) x (suc n) h = get_or-snoc xs x n (omega arith)

  take-append : (xs ys : List A) (n : ℕ) → n ≤ length xs → take n (xs ++ ys) ≡ take n xs
  take-append xs ys zero h = refl
  take-append [] ys (suc n) h = ground arith
  take-append (x ∷ xs) ys (suc n) h = rw (take-append xs ys n (omega arith)) refl

  take-suc :
      (xs : List A) (n : ℕ)
      → n < length xs
      → take (suc n) xs ≡ take n xs ++ (get_or xs n blank ∷ [])
  take-suc [] n h = ground arith
  take-suc (x ∷ xs) zero h = refl
  take-suc (x ∷ xs) (suc n) h = rw (take-suc xs n (omega arith)) refl

  -- Two counters less than a ring apart have slots of their own.
  pub slot-ne : (n h : ℕ) → n < h → h < n + ring_capacity → slot (in_memory h) ≢ slot (in_memory n)
  slot-ne n h less near e = omega arith

  -- What the tests say of the counters themselves.
  pub not_full :
      (head tail : ℕ)
      → tail ≤ head
      → head ≤ tail + ring_capacity
      → is_full head tail ≡ false
      → head < tail + ring_capacity
  not_full head tail lo hi h =
      let apart : sub_size (in_memory head) (in_memory tail) ≡ head - tail = omega arith in
      ground (arith, apart)

  pub not_empty : (head tail : ℕ) → tail ≤ head → is_empty head tail ≡ false → tail < head
  not_empty head tail lo h = ground arith

  pub opened-IsShared : IsShared (opened blank)
  opened-IsShared = record {
    slots = length-replicate ring_capacity blank;
    ordered = omega arith;
    room = omega arith;
    tail_old = omega arith;
    head_old = omega arith;
    head_new = omega arith;
    counted = refl;
    kept = λ n lo hi. absurd (omega arith);
    served = refl;
    writing = tt;
    reading = tt;
  }

  -- A frame accepted meanwhile leaves the reader in order.
  IsReading-append :
      (read_tail head_seen : ℕ) (accepted : List A) (frame : A) (r : Reader A)
      → head_seen ≤ length accepted
      → IsReading read_tail head_seen accepted r
      → IsReading read_tail head_seen (accepted ++ (frame ∷ [])) r
  IsReading-append read_tail head_seen accepted frame Reader.idle h v = tt
  IsReading-append read_tail head_seen accepted frame (Reader.loaded head) h v = v
  IsReading-append read_tail head_seen accepted frame (Reader.copied x) h (less, e) =
      (less, get_or-append accepted (frame ∷ []) read_tail (omega arith) ∙ e)

  push_publish-IsShared :
      (s : Threads A) (frame : A)
      → s.writer ≡ Writer.stored frame
      → IsShared s
      → IsShared (record s {
        writer = Writer.idle;
        write_head = s.write_head + 1;
        accepted = s.accepted ++ (frame ∷ []);
      })
  push_publish-IsShared s frame e v =
      let (near, here) : IsWriting s.write_head s.tail_seen s.ring_buffer (Writer.stored frame) =
        rw (e) at v.writing in
      record {
        slots = v.slots;
        ordered = omega (arith, v.ordered);
        room = omega arith;
        tail_old = v.tail_old;
        head_old = omega (arith, v.head_old);
        head_new = v.head_new;
        counted = omega (arith, v.counted, length-append s.accepted (frame ∷ []));
        kept = λ n lo hi. elim (dec_lt n s.write_head) [
          | yes old ↦
              v.kept n lo old
              ∙ sym (get_or-append s.accepted (frame ∷ []) n (omega (arith, v.counted)))
          | no new ↦
              (let at_head : n ≡ s.write_head = omega arith in
                rw (at_head) (here ∙ sym (get_or-snoc s.accepted frame s.write_head v.counted)))
        ];
        served =
            v.served
            ∙ sym (
                take-append s.accepted (frame ∷ []) s.read_tail
                  (omega (arith, v.ordered, v.counted)));
        writing = tt;
        reading =
            IsReading-append s.read_tail s.head_seen s.accepted frame s.reader
              (omega (arith, v.head_old, v.counted)) v.reading;
      }

  push_store-IsShared :
      (s : Threads A) (frame : A) (tail : ℕ)
      → s.writer ≡ Writer.loaded frame tail
      → is_full s.write_head tail ≡ false
      → IsShared s
      → IsShared (record s {
        writer = Writer.stored frame;
        ring_buffer = set s.ring_buffer (slot (in_memory s.write_head)) frame;
      })
  push_store-IsShared s frame tail e room v =
      let here : IsWriting s.write_head s.tail_seen s.ring_buffer (Writer.loaded frame tail) =
        rw (e) at v.writing in
      let near : s.write_head < s.tail_seen + ring_capacity =
        not_full s.write_head s.tail_seen (omega (arith, v.ordered, v.tail_old)) v.room
          (rw (← here) room) in
      record {
        slots = length-set s.ring_buffer _ frame ∙ v.slots;
        ordered = v.ordered;
        room = v.room;
        tail_old = v.tail_old;
        head_old = v.head_old;
        head_new = v.head_new;
        counted = v.counted;
        kept = λ n lo hi.
            get_or-set_ne s.ring_buffer _ _ frame blank
              (slot-ne n s.write_head hi (omega (arith, v.tail_old)))
            ∙ v.kept n lo hi;
        served = v.served;
        writing = (near, get_or-set_self s.ring_buffer _ frame blank (omega (arith, v.slots)));
        reading = v.reading;
      }

  pop_copy-IsShared :
      (s : Threads A) (head : ℕ)
      → s.reader ≡ Reader.loaded head
      → is_empty head s.read_tail ≡ false
      → IsShared s
      → IsShared (record s {
        reader = Reader.copied (get_or s.ring_buffer (slot (in_memory s.read_tail)) blank);
      })
  pop_copy-IsShared s head e some_left v =
      let here : IsReading s.read_tail s.head_seen s.accepted (Reader.loaded head) =
        rw (e) at v.reading in
      let less : s.read_tail < s.head_seen =
        not_empty s.head_seen s.read_tail v.head_new (rw (← here) some_left) in
      record {
        slots = v.slots;
        ordered = v.ordered;
        room = v.room;
        tail_old = v.tail_old;
        head_old = v.head_old;
        head_new = v.head_new;
        counted = v.counted;
        kept = v.kept;
        served = v.served;
        writing = v.writing;
        reading = (less, sym (v.kept s.read_tail (omega arith) (omega (arith, v.head_old))));
      }

  pop_publish-IsShared :
      (s : Threads A) (frame : A)
      → s.reader ≡ Reader.copied frame
      → IsShared s
      → IsShared (record s {
        reader = Reader.idle;
        read_tail = s.read_tail + 1;
        delivered = s.delivered ++ (frame ∷ []);
      })
  pop_publish-IsShared s frame e v =
      let (less, here) : IsReading s.read_tail s.head_seen s.accepted (Reader.copied frame) =
        rw (e) at v.reading in
      record {
        slots = v.slots;
        ordered = omega (arith, v.head_old);
        room = v.room;
        tail_old = omega (arith, v.tail_old);
        head_old = v.head_old;
        head_new = omega arith;
        counted = v.counted;
        kept = λ n lo hi. v.kept n (omega arith) hi;
        served =
            rw
              (
                add-one,
                take-suc s.accepted s.read_tail (omega (arith, v.counted, v.head_old)),
                here,
                ← v.served,
              )
              refl;
        writing = v.writing;
        reading = tt;
      }

  Push-IsShared : (s t : Threads A) → Push blank s t → IsShared s → IsShared t
  Push-IsShared _ _ (push_load s frame tail e lo hi) v = record {
    slots = v.slots;
    ordered = v.ordered;
    room = omega (arith, v.room);
    tail_old = hi;
    head_old = v.head_old;
    head_new = v.head_new;
    counted = v.counted;
    kept = v.kept;
    served = v.served;
    writing = refl;
    reading = v.reading;
  }
  Push-IsShared _ _ (push_full s frame tail e full) v = record {
    slots = v.slots;
    ordered = v.ordered;
    room = v.room;
    tail_old = v.tail_old;
    head_old = v.head_old;
    head_new = v.head_new;
    counted = v.counted;
    kept = v.kept;
    served = v.served;
    writing = tt;
    reading = v.reading;
  }
  Push-IsShared _ _ (push_store s frame tail e room) v = push_store-IsShared s frame tail e room v
  Push-IsShared _ _ (push_publish s frame e) v = push_publish-IsShared s frame e v

  Pop-IsShared : (s t : Threads A) → Pop blank s t → IsShared s → IsShared t
  Pop-IsShared _ _ (pop_load s head e lo hi) v = record {
    slots = v.slots;
    ordered = v.ordered;
    room = v.room;
    tail_old = v.tail_old;
    head_old = hi;
    head_new = omega (arith, v.head_new);
    counted = v.counted;
    kept = v.kept;
    served = v.served;
    writing = v.writing;
    reading = refl;
  }
  Pop-IsShared _ _ (pop_empty s head e empty) v = record {
    slots = v.slots;
    ordered = v.ordered;
    room = v.room;
    tail_old = v.tail_old;
    head_old = v.head_old;
    head_new = v.head_new;
    counted = v.counted;
    kept = v.kept;
    served = v.served;
    writing = v.writing;
    reading = tt;
  }
  Pop-IsShared _ _ (pop_copy s head e some_left) v = pop_copy-IsShared s head e some_left v
  Pop-IsShared _ _ (pop_publish s frame e) v = pop_publish-IsShared s frame e v

  pub Step-IsShared : (s t : Threads A) → Step blank s t → IsShared s → IsShared t
  Step-IsShared _ _ (by_writer s t e) v = Push-IsShared s t e v
  Step-IsShared _ _ (by_reader s t e) v = Pop-IsShared s t e v
