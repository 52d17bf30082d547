-- ===== src/FrameList.antt =====
-- packages/pmacc/include/spmacc/SinglyLinkedListDevice.hpp, FrameList.hpp and memory/utils.hpp: the
-- list of a region's frames. Nodes stand at addresses, 0 is the null pointer, and only the `next`
-- pointers are kept. `push_back` is the code of one thread; `Step` is one memory access of one of
-- any number of threads, so that the insertions interleave.
pub mod Threads
pub mod Steps
pub mod Links
pub mod Listed
pub mod Alone
pub mod Chain
mod Tests
use spearhed.Base.{
  ℕ, zero, suc, ◌+◌, ◌-◌, ◌≡◌, ◌≢◌, Box, update, ◌==◌, Bool, true, false, Option, none, some, List,
  [], ◌∷◌, if◌then◌else◌,
}

-- The list object and the nodes: `m_firstNode`, `m_lastNode`, and every node's `next`.
pub record Memory : Type 0 where
  pub first : ℕ
  pub last : ℕ
  pub next : Box ℕ

-- allocateRawMemory, given what each attempt's allocation returns; 0 is the null pointer.
unfoldable pub attempts : ℕ → ℕ → Box ℕ → ℕ
attempts zero i malloc = 0
attempts (suc left) i malloc =
    let rest = attempts left (suc i) malloc in if malloc i == 0 then rest else malloc i

unfoldable pub allocate_raw_memory : Box ℕ → ℕ
unfolding attempts
allocate_raw_memory malloc = attempts 13 0 malloc

-- getEmptyNode: the new node's address, with its `next` cleared; `none` where the device's check
-- for exhausted memory fails.
unfoldable pub get_empty_node : Box ℕ → Memory → Option (ℕ × Memory)
get_empty_node malloc m =
    let node = allocate_raw_memory malloc in
    if node == 0 then none else some (node, record m { next = update m.next node 0 })

-- pushBack, run with no interruption.
unfoldable pub push_back : ℕ → Memory → Memory
push_back node m =
    if node == 0
    then m
    else let cleared = update m.next node 0 in
      if m.last == 0
      then record { first = node; last = node; next = cleared }
      else record { first = m.first; last = node; next = update cleared m.last node }

-- getEmptyFrame
unfoldable pub get_empty_frame : Box ℕ → Memory → Option (ℕ × Memory)
get_empty_frame malloc m = elim (get_empty_node malloc m) [
  | none ↦ none
  | some (node, m') ↦ some (node, push_back node m')
]

-- The nodes that an iteration from `node` to the null pointer visits; `none` means that the fuel
-- ran out.
unfoldable pub walk : ℕ → Box ℕ → ℕ → Option (List ℕ)
walk zero next node = none
walk (suc fuel) next node = elim (node == 0) [
  | true ↦ some []
  | false ↦ elim (walk fuel next (next node)) [ none ↦ none | some rest ↦ some (node ∷ rest) ]
]

-- size()
unfoldable pub size : ℕ → Box ℕ → ℕ → ℕ → Option ℕ
size zero next node count = none
size (suc fuel) next node count = elim (node == 0) [
  | true ↦ some count
  | false ↦ size fuel next (next node) (suc count)
]

-- Where a thread stands in pushBack: about to clear its node's `next`, about to exchange the last
-- node, about to link the node behind the last one it was handed, or behind the fence.
pub data Pc : Type 0 where
  clearing exchanging : ℕ → Pc
  linking : ℕ → ℕ → Pc
  done : Pc

pub record State : Type 0 where
  pub memory : Memory
  pub pc : ℕ → Pc

abbrev pub move : (ℕ → Pc) → ℕ → Pc → ℕ → Pc
move pc i p j = if j == i then p else pc j

-- One access of thread `i`.
pub data Step (s t : State) : Type 0 where
  clears :
      (i node : ℕ)
      → s.pc i ≡ clearing node
      → t ≡ record {
        memory = record (s.memory) { next = update s.memory.next node 0 };
        pc = move s.pc i (exchanging node);
      }
      → Step s t
  exchanges :
      (i node : ℕ)
      → s.pc i ≡ exchanging node
      → t ≡ record {
        memory = record (s.memory) { last = node };
        pc = move s.pc i (linking s.memory.last node);
      }
      → Step s t
  links :
      (i old node : ℕ)
      → s.pc i ≡ linking old node
      → old ≢ 0
      → t ≡ record {
        memory = record (s.memory) { next = update s.memory.next old node };
        pc = move s.pc i done;
      }
      → Step s t
  heads :
      (i node : ℕ)
      → s.pc i ≡ linking 0 node
      → t ≡ record { memory = record (s.memory) { first = node }; pc = move s.pc i done }
      → Step s t
