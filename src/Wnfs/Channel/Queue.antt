-- ===== src/Wnfs/Channel/Queue.antt =====
-- What a channel promises: a queue of at most `ring_capacity` frames, oldest first.
use ailee_finance_unified_ru.Prelude.{
  ℕ, Bool, true, false, List, [], ◌∷◌, ◌++◌, ◌==◌, if◌then◌else◌, length,
}

-- A call of a client, and what it sees of it.
pub data Call {ℓ} (A : Type ℓ) : Type ℓ where
  put : A → Call A
  take_into : A → Call A

pub data Reply {ℓ} (A : Type ℓ) : Type ℓ where
  stored : Bool → Reply A
  taken : Bool → A → Reply A

module _ {ℓ} {A : Type ℓ} where
  unfoldable pub push : ℕ → List A → A → Bool × List A
  push cap q x = if length q == cap then (false, q) else (true, q ++ (x ∷ []))

  unfoldable pub pop : List A → A → Bool × A × List A
  pop [] out = (false, out, [])
  pop (x ∷ q) out = (true, x, q)

  unfoldable pub run : ℕ → List A → List (Call A) → List (Reply A)
  run cap q [] = []
  run cap q (put x ∷ calls) = let (s, q') = push cap q x in stored s ∷ run cap q' calls
  run cap q (take_into o ∷ calls) = let (s, x, q') = pop q o in taken s x ∷ run cap q' calls
