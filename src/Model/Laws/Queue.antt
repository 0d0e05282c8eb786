-- ===== src/Model/Laws/Queue.antt =====
-- The specification of one FIFO: a queue of at most `depth` words, with at most one word put and
-- one taken in a cycle, both judged by the queue at the start of the cycle.
use vibe_pio.Base.{
  ℕ, Bool, true, false, not, ◌&&◌, ltb, if◌then◌else◌, List, [], ◌∷◌, ◌++◌, Option, none, some,
  length,
}

abbrev pub is_empty : List ℕ → Bool
is_empty [] = true
is_empty (x ∷ q) = false

abbrev pub dequeue : Bool → List ℕ → List ℕ
dequeue true (x ∷ q) = q
dequeue true [] = []
dequeue false q = q

abbrev pub enqueue : ℕ → Option ℕ → List ℕ → List ℕ
enqueue depth none q = q
enqueue depth (some v) q = if ltb (length q) depth then q ++ (v ∷ []) else q

abbrev pub queue_cycle : ℕ → Option ℕ → Bool → List ℕ → List ℕ
queue_cycle depth put take q = dequeue (take && not (is_empty q)) (enqueue depth put q)
