-- ===== src/Old/Stack.antt =====
-- old/sources/gatherer/stack.c: the stack of processes. A stack is its list from `top` on.
use trapfetch.Base.{ℕ, Option, none, some, List, [], ◌∷◌, ◌==◌, if◌then◌else◌}

unfoldable pub new_pid_stack : List ℕ
new_pid_stack = []

unfoldable pub push : List ℕ → ℕ → List ℕ
push stack pid = pid ∷ stack

-- `none` for -1.
unfoldable pub pop : List ℕ → Option ℕ × List ℕ
pop [] = (none, [])
pop (p ∷ ps) = (some p, ps)

-- The loop from the second node on.
pub find_pid : List ℕ → ℕ → Option ℕ
find_pid [] pid = none
find_pid (p ∷ ps) pid = if pid == p then some pid else find_pid ps pid

-- getStackpid: one node is compared by itself.
unfoldable pub get_stack_pid : List ℕ → ℕ → Option ℕ
unfolding find_pid
get_stack_pid [] pid = none
get_stack_pid (p ∷ []) pid = if pid == p then some pid else none
get_stack_pid (p ∷ q ∷ ps) pid = find_pid (p ∷ q ∷ ps) pid
