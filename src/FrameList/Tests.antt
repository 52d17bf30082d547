-- ===== src/FrameList/Tests.antt =====
-- Two threads whose insertions interleave, and the theorems there.
use spearhed.Base.{
  ℕ, ◌+◌, ◌<◌, ◌≡◌, ◌≢◌, ◌⊎◌, refl, arith, Box, update, ◌==◌, some, [], ◌∷◌, if◌then◌else◌,
}
use spearhed.FrameList.{
  Memory, allocate_raw_memory, push_back, exchanging, linking, done, State, move, clears, exchanges,
  links, heads, walk,
}
use spearhed.FrameList.Threads.{IsJob, initial, Reach, here, then_step}
use spearhed.FrameList.Listed.{IsListed, exchange_log, Reach-IsListed}
use spearhed.FrameList.Chain.{IsList, push_back-IsList}
use spearhed.FrameList.Alone.{allocate_raw_memory-first}

-- Thread 0 has the node at 10, thread 1 the node at 11.
abbrev node : Box ℕ
node i = i + 10

job : IsJob 2 node
job = record { not_null = λ i lt e. omega arith; distinct = λ i j lt lt' e. omega arith }

abbrev start : State
start = initial 2 node (λ a. 99)

-- The node at 7, then the one at 8; others have stale pointers.
abbrev two_nodes : Memory
two_nodes = record {
  first = 7;
  last = 8;
  next = λ a. if a == 7 then 8 else if a == 8 then 0 else 99;
}

-- The third attempt succeeds.
abbrev third : Box ℕ
third k = if k == 2 then 7 else 0

allocate_raw_memory-first_example :
    ((allocate_raw_memory third ≡ 0) × ((k : ℕ) → k < 13 → third k ≡ 0))
    ⊎ ((k : ℕ) × (k < 13)
        × (third k ≢ 0)
        × (allocate_raw_memory third ≡ third k)
        × ((j : ℕ) → j < k → third j ≡ 0))
allocate_raw_memory-first_example = allocate_raw_memory-first third

push_back-IsList_example : IsList (push_back 9 two_nodes) (7 ∷ 8 ∷ 9 ∷ [])
push_back-IsList_example =
    push_back-IsList two_nodes (7 ∷ 8 ∷ []) 9
      (record {
        chain = (refl, (λ e. omega arith), (refl, (λ e. omega arith), refl));
        last = refl;
        once = (refl, (refl, tt));
      })
      (λ e. omega arith) refl

-- Both threads clear, thread 1 exchanges first and thread 0 links before the head is set.
abbrev both_cleared : State
both_cleared = record {
  memory = record (start.memory) { next = update (update start.memory.next 10 0) 11 0 };
  pc = move (move start.pc 0 (exchanging 10)) 1 (exchanging 11);
}

abbrev both_exchanged : State
both_exchanged = record {
  memory = record (both_cleared.memory) { last = 10 };
  pc = move (move both_cleared.pc 1 (linking 0 11)) 0 (linking 11 10);
}

abbrev both_through : State
both_through = record {
  memory = record { first = 11; last = 10; next = update both_exchanged.memory.next 11 10 };
  pc = move (move both_exchanged.pc 0 done) 1 done;
}

interleaved : Reach start both_through
interleaved =
    then_step
      (then_step
        (then_step
          (then_step (then_step (then_step here (clears 0 10 refl refl)) (clears 1 11 refl refl))
            (exchanges 1 11 refl refl))
          (exchanges 0 10 refl refl))
        (links 0 11 10 refl (λ e. omega arith) refl))
      (heads 1 11 refl refl)

through : (i : ℕ) → both_through.pc i ≡ done
through i = ground arith

Reach-IsListed_example : IsListed 2 node both_through.memory (exchange_log interleaved)
Reach-IsListed_example = Reach-IsListed 2 node job (λ a. 99) both_through interleaved through

walked_both : walk 3 both_through.memory.next both_through.memory.first ≡ some (11 ∷ 10 ∷ [])
unfolding walk
walked_both = refl
