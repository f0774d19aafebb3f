-- ===== src/Tests/VecInstances.antt =====
-- The theorems about the crate vecs at concrete inputs.
use lockness.Prelude.{
  ℕ, zero, suc, ◌+◌, ◌*◌, ◌%◌, ◌^◌, ◌≤◌, ◌≡◌, refl, ◌==◌, if◌then◌else◌, Bool, true, false, none,
  some, [], ◌∷◌, map, max, get_elem?, arith,
}
use lockness.Vecs.Layout.{TypeLayout, header_size, header_space, next_multiple_of, min_non_zero_cap}
use lockness.Vecs.FreestandingVec.{Result, ok, ◌>>=◌, Block, FreestandingVec}
use lockness.Vecs.FreestandingVec
use lockness.Vecs.FreestandingVec.Stack.{IsLayout, Holds, CanGrow, push_lem}
use lockness.Vecs.FreestandingVec.Pop.{pop_lem}
use lockness.Vecs.FreestandingVec.Addresses.{pop_address_in_block}
use lockness.Vecs.FreestandingVec.Init.{init_lem}
use lockness.Vecs.ClosureVec.{closure, ClosureVec, Task, ran, dropped, Metadata, init_metadata}
use lockness.Vecs.ClosureVec
use lockness.Vecs.ClosureVec.Life.{push_all, closure_life, update_type_lem}
use lockness.Vecs.ClosureVec.Runs.{HoldsClosures, pop_and_run_lem}

-- `Header<fn>` and a closure that captures a word, and one that captures two bytes.
abbrev header : TypeLayout
header = record { size = 32; log_align = 3 }

abbrev word : TypeLayout
word = record { size = 8; log_align = 3 }

abbrev pair : TypeLayout
pair = record { size = 2; log_align = 0 }

abbrev always : ℕ → Bool
always k = true

word-IsLayout : IsLayout header word
unfolding header_space next_multiple_of
word-IsLayout = record { header_whole = refl; size_lt = omega arith; align_lt = omega arith }

pair-IsLayout : IsLayout header pair
unfolding header_space next_multiple_of
pair-IsLayout = record { header_whole = refl; size_lt = omega arith; align_lt = omega arith }

-- A block with room for the header and four words, and two values.
abbrev block : {M V : Type 0} → M → V → V → Block M V
block m v w = record {
  size = 64;
  align = 8;
  metadata = some m;
  value_size = 8;
  alignment = 8;
  len = 2;
  capacity = 64;
  value = λ i. if i == 32 then some v else if i == 40 then some w else none;
}

values_stored :
    {V : Type 0} (v w : V) (i : ℕ) (u : V)
    → get_elem? (v ∷ w ∷ []) i ≡ some u
    → (if 32 + i * 8 == 32 then some v else if 32 + i * 8 == 40 then some w else none) ≡ some u
values_stored v w zero u e = e
values_stored v w (suc zero) u e = e
values_stored v w (suc (suc i)) u e = cc

block-Holds : {M V : Type 0} (m : M) (v w : V) → Holds header word (block m v w) (v ∷ w ∷ [])
unfolding header_space next_multiple_of
block-Holds m v w = record {
  is_len = refl;
  elem = refl;
  aligned = refl;
  same_align = refl;
  whole = refl;
  fits = omega arith;
  bound = omega arith;
  stored = values_stored v w;
}

block-CanGrow : CanGrow {M = ℕ} {V = ℕ} always header word (block 3 5 6)
unfolding header_space next_multiple_of
block-CanGrow = (omega arith, omega arith, refl)

push_lem_example :
    (b : Block ℕ ℕ) × (FreestandingVec.push always header word (block 3 5 6) 7 ≡ ok b)
    × Holds header word b (5 ∷ 6 ∷ 7 ∷ [])
    × (b.metadata ≡ some 3)
push_lem_example =
    push_lem always header word (block 3 5 6) (5 ∷ 6 ∷ []) 7 (λ e. absurd (omega arith))
      (block-Holds 3 5 6) (omega arith) block-CanGrow

pop_lem_example :
    (b : Block ℕ ℕ) × (FreestandingVec.pop header (block 3 5 6) ≡ ok (some (some 3, 6), b))
    × Holds header word b (5 ∷ [])
    × (b.metadata ≡ some 3)
pop_lem_example = pop_lem header word word-IsLayout (block 3 5 6) (5 ∷ []) 6 (block-Holds 3 5 6)

abbrev emptied : Block ℕ ℕ
emptied = record (block 3 5 6) { len = 0 }

emptied-Holds : Holds header word emptied []
unfolding header_space next_multiple_of
emptied-Holds = record {
  is_len = refl;
  elem = refl;
  aligned = refl;
  same_align = refl;
  whole = refl;
  fits = omega arith;
  bound = omega arith;
  stored = λ i v e. cc;
}

pair_small : min_non_zero_cap header pair ≤ 2 ^ 61
unfolding min_non_zero_cap header_space next_multiple_of
pair_small = omega arith

init_lem_example :
    (b : Block ℕ ℕ) × (FreestandingVec.init always header pair (some emptied) 9 ≡ ok (3 ∷ [], b))
    × Holds header pair b []
    × (b.metadata ≡ some 9)
    × (b.capacity ≤ max 64 (2 * min_non_zero_cap header pair))
init_lem_example =
    init_lem always header pair pair-IsLayout (λ k. refl) pair_small word emptied 3 9 emptied-Holds
      refl (omega arith)

-- Closures of the type 0.
abbrev closures : ClosureVec ℕ
closures = record { data' = block (init_metadata 0) (closure 0 5) (closure 0 6); log = [] }

closures-HoldsClosures : HoldsClosures header word 0 closures (5 ∷ 6 ∷ [])
closures-HoldsClosures = record {
  values = block-Holds (init_metadata 0) (closure 0 5) (closure 0 6);
  tag = refl;
}

pop_and_run_lem_example :
    (c : ClosureVec ℕ) × (ClosureVec.pop_and_run header closures ≡ ok (false, c))
    × HoldsClosures header word 0 c (5 ∷ [])
    × (c.log ≡ ran 6 ∷ [])
pop_and_run_lem_example =
    pop_and_run_lem header word word-IsLayout 0 closures (5 ∷ []) 6 closures-HoldsClosures

word_small : min_non_zero_cap header word ≤ 2 ^ 61
unfolding min_non_zero_cap header_space next_multiple_of
word_small = omega arith

words_fit : header_size header word + 3 * 8 ≤ 2 ^ 60
unfolding header_space next_multiple_of
words_fit = omega arith

closure_life_example :
    (c : ClosureVec ℕ) × ((ClosureVec.new always header word 0
        >>= push_all always header word 0 (5 ∷ 6 ∷ 7 ∷ []))
      ≡ ok c)
    × HoldsClosures header word 0 c (5 ∷ 6 ∷ 7 ∷ [])
    × (ClosureVec.drop header 4 c ≡ some (ok (map dropped (7 ∷ 6 ∷ 5 ∷ []), none)))
closure_life_example =
    closure_life always header word 0 word-IsLayout (λ k. refl) (λ e. absurd (omega arith))
      (5 ∷ 6 ∷ 7 ∷ []) word_small (omega arith) words_fit

-- The closures of type 0 have run.
abbrev used_up : ClosureVec ℕ
used_up = record {
  data' = record (block (init_metadata 0) (closure 0 5) (closure 0 6)) { len = 0 };
  log = ran 6 ∷ ran 5 ∷ [];
}

used_up-HoldsClosures : HoldsClosures header word 0 used_up []
unfolding header_space next_multiple_of
used_up-HoldsClosures = record {
  values = record {
    is_len = refl;
    elem = refl;
    aligned = refl;
    same_align = refl;
    whole = refl;
    fits = omega arith;
    bound = omega arith;
    stored = λ i v e. cc;
  };
  tag = refl;
}

pair_smaller : min_non_zero_cap header pair ≤ 2 ^ 60
unfolding min_non_zero_cap header_space next_multiple_of
pair_smaller = omega arith

pairs_fit : header_size header pair + 2 * 2 ≤ 2 ^ 60
unfolding header_space next_multiple_of
pairs_fit = omega arith

update_type_lem_example :
    (c : ClosureVec ℕ) × ((ClosureVec.update_type always header pair 1 used_up
        >>= push_all always header pair 1 (8 ∷ 9 ∷ []))
      ≡ ok c)
    × HoldsClosures header pair 1 c (8 ∷ 9 ∷ [])
    × (ClosureVec.drop header 3 c ≡ some (ok (ran 6 ∷ ran 5 ∷ map dropped (9 ∷ 8 ∷ []), none)))
update_type_lem_example =
    update_type_lem always header pair 1 pair-IsLayout (λ k. refl) (λ e. absurd (omega arith)) word
      0 used_up (8 ∷ 9 ∷ []) used_up-HoldsClosures (omega arith) pair_smaller (omega arith)
      pairs_fit

-- The address of a value after the start of the allocation.
abbrev found : ℕ → ℕ
found i = FreestandingVec.pop_address {M = ℕ} {V = ℕ} header (block 3 5 6) i

pop_address_in_block_example :
    ((1024 + found 1) % 8 ≡ 0) × (32 ≤ found 1) × (found 1 + 8 ≤ 64) × (found 1 + 8 ≤ found 2)
pop_address_in_block_example =
    pop_address_in_block header word word-IsLayout (block 3 5 6) (5 ∷ 6 ∷ []) 1 1024
      (block-Holds 3 5 6) refl refl (omega arith)
