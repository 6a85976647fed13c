-- ===== src/Prelude/Bytes.antt =====
-- Texts as their bytes, as `std::string` holds them: comparison, and the pieces of `std::getline`.
use Prim.Native.String.{String}
use Prim.Native.Char.{code}
use Prim.Native.Nat.{ℕ}
use mathlib.Core.Path.{◌≡◌, refl}
use mathlib.Core.Bool.{Bool, true, false, ◌&&◌}
use mathlib.Core.Option.{Option, none, some}
use mathlib.Core.List.{List, [], ◌∷◌, ◌++◌}
use native.Mathlib.Omega.{arith}
use ailee_finance_unified_ru.Prelude.Tests.{◌==◌, if◌then◌else◌, ltb}

abbrev pub Bytes : Type 0
Bytes = List ℕ

abbrev pub codes : String → Bytes
codes String.[] = []
codes (String.◌∷◌ c s) = code c ∷ codes s

abbrev pub is_empty {ℓ} : {A : Type ℓ} → List A → Bool
is_empty [] = true
is_empty (_ ∷ _) = false

unfoldable pub same : Bytes → Bytes → Bool
same [] [] = true
same [] (_ ∷ _) = false
same (_ ∷ _) [] = false
same (a ∷ s) (b ∷ t) = a == b && same s t

-- The order of `std::string`.
unfoldable pub less : Bytes → Bytes → Bool
less [] [] = false
less [] (_ ∷ _) = true
less (_ ∷ _) [] = false
less (a ∷ s) (b ∷ t) = let rest = less s t in if a == b then rest else ltb a b

pub same_eq : (s t : Bytes) → same s t ≡ true → s ≡ t
unfolding same
same_eq [] [] h = refl
same_eq [] (_ ∷ _) h = cc
same_eq (_ ∷ _) [] h = cc
same_eq (a ∷ s) (b ∷ t) h = ground (arith, same_eq s t)

pub same_refl : (s : Bytes) → same s s ≡ true
unfolding same
same_refl [] = refl
same_refl (a ∷ s) = ground (arith, same_refl s)

abbrev cons_first : ℕ → List Bytes → List Bytes
cons_first c [] = (c ∷ []) ∷ []
cons_first c (l ∷ ls) = (c ∷ l) ∷ ls

-- What repeated calls of `std::getline` read: nothing comes of an empty rest.
unfoldable pub pieces : ℕ → Bytes → List Bytes
pieces d [] = []
pieces d (c ∷ s) = let rest = pieces d s in if c == d then [] ∷ rest else cons_first c rest

abbrev put_before : ℕ → Option (Bytes × Bytes) → Option (Bytes × Bytes)
put_before c none = none
put_before c (some (s, t)) = some (c ∷ s, t)

abbrev or_here : Bool → Bytes → Option (Bytes × Bytes) → Option (Bytes × Bytes)
or_here true t none = some ([], t)
or_here false t none = none
or_here _ t (some p) = some p

-- What stands before and after the last `d`, as `rfind` finds it.
unfoldable pub split_last : ℕ → Bytes → Option (Bytes × Bytes)
split_last d [] = none
split_last d (c ∷ s) = let rest = split_last d s in or_here (c == d) s (put_before c rest)

abbrev pub Lacks : ℕ → Bytes → Type 0
Lacks d [] = Unit
Lacks d (c ∷ s) = ((c == d) ≡ false) × Lacks d s

pub append-Lacks : (d : ℕ) (s t : Bytes) → Lacks d s → Lacks d t → Lacks d (s ++ t)
append-Lacks d [] t h k = k
append-Lacks d (c ∷ s) t (h, hs) k = (h, append-Lacks d s t hs k)

pub pieces-cut : (d : ℕ) (s t : Bytes) → Lacks d s → pieces d (s ++ (d ∷ t)) ≡ s ∷ pieces d t
unfolding pieces
pieces-cut d [] t h = ground arith
pieces-cut d (c ∷ s) t (h, hs) = rw (h, pieces-cut d s t hs) refl

pub pieces-one : (d : ℕ) (c : ℕ) (s : Bytes) → Lacks d (c ∷ s) → pieces d (c ∷ s) ≡ (c ∷ s) ∷ []
unfolding pieces
pieces-one d c [] (h, hs) = rw h refl
pieces-one d c (b ∷ s) (h, hs) = rw (h, pieces-one d b s hs) refl

split_last-Lacks : (d : ℕ) (t : Bytes) → Lacks d t → split_last d t ≡ none
unfolding split_last
split_last-Lacks d [] h = refl
split_last-Lacks d (c ∷ t) (h, ht) = rw (h, split_last-Lacks d t ht) refl

pub split_last-cut : (d : ℕ) (s t : Bytes) → Lacks d t → split_last d (s ++ (d ∷ t)) ≡ some (s, t)
unfolding split_last
split_last-cut d [] t h = rw (split_last-Lacks d t h) ground arith
split_last-cut d (c ∷ s) t h = rw (split_last-cut d s t h) refl

cons_first-twice :
    (c b : ℕ) (ls ms : List Bytes)
    → cons_first c (cons_first b ls ++ ms) ≡ cons_first c (cons_first b ls) ++ ms
cons_first-twice c b [] ms = refl
cons_first-twice c b (_ ∷ _) ms = refl

-- A text that ends in `d` is read apart from what follows it.
cons_first-append :
    (d c : ℕ) (s : Bytes) (ls : List Bytes)
    → cons_first c (pieces d (s ++ (d ∷ [])) ++ ls) ≡ cons_first c (pieces d (s ++ (d ∷ []))) ++ ls
unfolding pieces
cons_first-append d c [] ls = ground arith
cons_first-append d c (b ∷ s) ls =
    ground (arith, cons_first-twice c b (pieces d (s ++ (d ∷ []))) ls)

pub pieces-append :
    (d : ℕ) (s t : Bytes) → pieces d ((s ++ (d ∷ [])) ++ t) ≡ pieces d (s ++ (d ∷ [])) ++ pieces d t
unfolding pieces
pieces-append d [] t = ground arith
pieces-append d (c ∷ s) t =
    ground (arith, pieces-append d s t, cons_first-append d c s (pieces d t))
