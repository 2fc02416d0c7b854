-- ===== src/Uart/Ring/Queue.antt =====
-- What the receive ring promises: a queue of at most 127 bytes, oldest first, that drops what comes
-- when it is full; and a history of arrivals and reads with what each read returned.
use refix_os.Common.{ℕ, List, [], ◌∷◌, ◌++◌, Option, none, some, length, ltb, if◌then◌else◌}

pub data Event : Type 0 where
  arrive : ℕ → Event
  read : Event

abbrev pub capacity : ℕ
capacity = 127

unfoldable pub push : List ℕ → ℕ → List ℕ
push q c = if ltb (length q) capacity then q ++ c ∷ [] else q

unfoldable pub pop : List ℕ → Option ℕ × List ℕ
pop [] = (none, [])
pop (c ∷ q) = (some c, q)

unfoldable pub run : List ℕ → List Event → List (Option ℕ)
run q [] = []
run q (arrive c ∷ es) = run (push q c) es
run q (read ∷ es) = let (c, q') = pop q in c ∷ run q' es
