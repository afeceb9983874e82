-- ===== src/Thread.antt =====
-- src/oabi/minithread.c, and the allocator of src/oabi/minilib.c that it uses. `_thread_create` is
-- assembly: the process number that it returns is a parameter.
pub mod Heap
pub mod Mutex
mod Tests
use sn.Base.{
  ℕ, ◌+◌, ◌*◌, ◌/◌, ◌%◌, ◌^◌, suc, Option, none, some, List, [], ◌∷◌, ltb, if◌then◌else◌, ℤ, pos,
  negsuc,
}

abbrev pub heap_size : ℕ
heap_size = 32768

-- `(size + 7) & ~(size_t)7`, for a size_t of 32 bits
abbrev pub aligned_size : ℕ → ℕ
aligned_size size = (size + 7) % 2 ^ 32 / 8 * 8

-- `malloc(size)` with `_heap_used`: the offset of the block in `_heap_buf`, if there is room, and
-- `_heap_used` after the call.
unfoldable pub malloc : ℕ → ℕ → Option ℕ × ℕ
malloc size used =
    if ltb heap_size ((used + aligned_size size) % 2 ^ 32)
    then (none, used)
    else (some used, (used + aligned_size size) % 2 ^ 32)

abbrev pub thread_stack_size : ℕ
thread_stack_size = 8192

-- The result for the process number.
abbrev pub created : ℤ → ℤ
created (pos n) = pos 0
created (negsuc n) = pos (suc n)

abbrev pub with_stack : ℤ → Option ℕ × ℕ → ℤ × Option ℕ × ℕ
with_stack pid (none, used) = (pos 12, none, used)
with_stack pid (some at, used) = (created pid, some (at + thread_stack_size), used)

-- `pthread_create`: its result, the top of the stack that the thread was given, as an offset in
-- `_heap_buf`, and `_heap_used` after the call.
unfoldable pub pthread_create : ℤ → ℕ → ℤ × Option ℕ × ℕ
pthread_create pid used = with_stack pid (malloc thread_stack_size used)
