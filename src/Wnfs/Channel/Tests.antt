-- ===== src/Wnfs/Channel/Tests.antt =====
-- Runs of the channel, and each theorem at an input. The frames are numbers.
use ailee_finance_unified_ru.Prelude.{
  ℕ, arith, ◌≡◌, ◌^◌, ◌-◌, refl, true, false, List, [], ◌∷◌, replicate, length-replicate,
}
use ailee_finance_unified_ru.Wnfs.Channel.{Channel, ring_capacity, push_frame, pop_frame, run}
use ailee_finance_unified_ru.Wnfs.Channel.Queue
use ailee_finance_unified_ru.Wnfs.Channel.Queue.{Call, put, take_into, Reply, stored, taken}
use ailee_finance_unified_ru.Wnfs.Channel.Refine.{IsValid, contents, run_refines}

-- A channel whose head is about to wrap: two frames are held.
abbrev wrapping : Channel ℕ
wrapping = record {
  ring_buffer = replicate ring_capacity 7;
  write_head = 2 ^ 64 - 1;
  read_tail = 2 ^ 64 - 3;
}

wrapping-IsValid : IsValid wrapping
wrapping-IsValid = record {
  slots = length-replicate {A = ℕ} ring_capacity 7;
  head_in = omega arith;
  tail_in = omega arith;
  room = omega arith;
}

abbrev calls : List (Call ℕ)
calls = put 8 ∷ put 9 ∷ take_into 0 ∷ take_into 0 ∷ take_into 0 ∷ take_into 0 ∷ take_into 0 ∷ []

calls-run :
    run 0 wrapping calls
    ≡ stored true
      ∷ stored true
      ∷ taken true 7
      ∷ taken true 7
      ∷ taken true 8
      ∷ taken true 9
      ∷ taken false 0
      ∷ []
unfolding run push_frame pop_frame
calls-run = refl

run_refines_example : run 0 wrapping calls ≡ Queue.run ring_capacity (contents 0 wrapping) calls
run_refines_example = run_refines 0 calls wrapping wrapping-IsValid
