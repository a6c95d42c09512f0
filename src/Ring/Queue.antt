-- ===== src/Ring/Queue.antt =====
-- The abstract queue that an X ring promises: messages in order, a bounded number of them.
use gittest.Prelude.{ℕ, ◌+◌, Option, none, some, List, [], ◌∷◌, ◌++◌, ◌==◌, if◌then◌else◌, length}
use gittest.Prelude.Int.{ℤ}
use gittest.Ring.{Bytes, success, no_space, no_ent}

-- One slot of the `m` stays free.
abbrev pub push : ℕ → List Bytes → Bytes → ℤ × List Bytes
push m qs q = if length qs + 1 == m then (no_space, qs) else (success, qs ++ q ∷ [])

abbrev pub pop : List Bytes → ℤ × Option Bytes × List Bytes
pop [] = (no_ent, none, [])
pop (q ∷ qs) = (success, some q, qs)
