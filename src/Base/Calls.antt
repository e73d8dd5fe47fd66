-- ===== src/Base/Calls.antt =====
-- How a call to Redis or Postgres ends. A call that returns an error either never reached the server
-- or was carried out with its reply lost; the code cannot tell the two apart.
use Prim.Native.Nat.{ℕ}
use mathlib.Core.Bool.{Bool, true, false}

pub data Outcome : Type 0 where
  done refused lost : Outcome

-- The new state, and whether `err == nil`.
abbrev pub attempt {ℓ} : {S : Type ℓ} → Outcome → (S → S) → S → S × Bool
attempt done f s = (f s, true)
attempt refused f s = (s, false)
attempt lost f s = (f s, false)

-- A call that only reads answers in one case.
abbrev pub answers : Outcome → Bool
answers done = true
answers _ = false

-- The environment decides how the calls of one operation end, in the order of the source.
abbrev pub Replies : Type 0
Replies = ℕ → Outcome

abbrev pub all_done : Replies
all_done _ = done
