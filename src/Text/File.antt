-- ===== src/Text/File.antt =====
-- src/oabi/minilib.c: buffered files on top of read and write. `write` is taken to write all it is
-- given, as the code does not look at its result; how much `read` gives at a time is a parameter,
-- and it does not fail.
pub mod Writing
pub mod Reading
mod Tests
use sn.Base.{
  ℕ, ◌+◌, ◌*◌, zero, suc, Bool, true, false, not, ◌||◌, Option, none, some, List, [], ◌∷◌, ◌++◌,
  length, take, drop, get_or, slice, ltb, leb, ◌==◌, if◌then◌else◌, ◌>>=◌, Array, load, memcpy,
}

abbrev pub buffer_size : ℕ
buffer_size = 256

-- An open file, and what was written to its descriptor.
pub record OutFile : Type 0 where
  pub buf : Array 256
  pub buf_pos : ℕ
  pub in_use : Bool
  pub written : List ℕ

-- `fopen(path, "w")` with a descriptor and a free entry.
abbrev pub opened : Array 256 → OutFile
opened old = record { buf = old; buf_pos = 0; in_use = true; written = [] }

-- `if (f->buf_pos > 0) { write(f->fd, f->buf, f->buf_pos); f->buf_pos = 0; }`
abbrev pub flush : OutFile → OutFile
flush f =
    if ltb 0 f.buf_pos
    then record f { written = f.written ++ slice f.buf 0 f.buf_pos; buf_pos = 0 }
    else f

-- The bytes into the buffer.
abbrev pub append_buf : List ℕ → OutFile → Option OutFile
append_buf src f = do
  buf' ← memcpy 256 f.buf f.buf_pos (length src) (λ i. get_or src i 0) 0 (length src)
  some (record f { buf = buf'; buf_pos = f.buf_pos + length src })

unfoldable pub buffered_write : List ℕ → OutFile → Option (ℕ × OutFile)
buffered_write src f = do f' ← append_buf src f; some (length src, f')

-- After the buffer was flushed: large writes go directly to the descriptor.
unfoldable pub flushed_write : List ℕ → OutFile → Option (ℕ × OutFile)
flushed_write src f =
    if ltb buffer_size (length src)
    then some (length src, record f { written = f.written ++ src })
    else buffered_write src f

-- `fwrite(src, 1, length, f)`: the bytes that it counts as written, and the file.
unfoldable pub fwrite : List ℕ → OutFile → Option (ℕ × OutFile)
fwrite src f =
    if not f.in_use || length src == 0
    then some (0, f)
    else if ltb buffer_size (f.buf_pos + length src)
    then flushed_write src (flush f)
    else buffered_write src f

-- `fputs(s, f)`: is its result 0, and the file.
unfoldable pub fputs : List ℕ → OutFile → Option (Bool × OutFile)
fputs s f = do (n, f') ← fwrite s f; some (n == length s, f')

-- `fclose` of a file that is written: what the file holds after it.
unfoldable pub fclose : OutFile → List ℕ
fclose f = (flush f).written

-- An open file that is read, and what `read` has not given yet.
pub record InFile : Type 0 where
  pub buf : Array 256
  pub buf_pos : ℕ
  pub buf_len : ℕ
  pub rest : List ℕ

module _ (amount : List ℕ → ℕ) where
  -- `f->buf_len = read(f->fd, f->buf, 256); f->buf_pos = 0;`
  unfoldable pub refill : InFile → Option InFile
  refill f = do
    let given = take (amount f.rest) f.rest
    buf' ← memcpy 256 f.buf 0 (length given) (λ i. get_or given i 0) 0 (length given)
    some (record {
      buf = buf';
      buf_pos = 0;
      buf_len = length given;
      rest = drop (amount f.rest) f.rest;
    })

  unfoldable pub if_empty : InFile → Option InFile
  if_empty f = if leb f.buf_len f.buf_pos then refill f else some f

  -- The loop of `fgets` with room for `room` characters.
  unfoldable pub fgets_loop : ℕ → InFile → Option (List ℕ × InFile)
  fgets_loop zero f = some ([], f)
  fgets_loop (suc room) f = do
    f₁ ← if_empty f
    let f₂ = record f₁ { buf_pos = f₁.buf_pos + 1 }
    let more = fgets_loop room f₂
    if f₁.buf_len == 0 then some ([], f₁) else (do
      c ← load 256 f₁.buf f₁.buf_pos
      if c == 10 then some (c ∷ [], f₂) else (do (line, f₃) ← more; some (c ∷ line, f₃)))
