-- ===== src/Text/File/Tests.antt =====
-- Runs of buffered files, and the theorems about them at concrete files.
use sn.Base.{◌≡◌, ℕ, List, [], ◌∷◌, some, codes, replicate, arith}
use sn.Config.{fgets}
use sn.Text.File.{OutFile, InFile, opened, fclose, fgets_loop}
use sn.Text.File.Writing.{writes, joined, fclose-writes}
use sn.Text.File.Reading.{unread, IsReading, fgets_loop-fgets}

abbrev lines : List (List ℕ)
lines = codes "a = 1\n" ∷ replicate 300 46 ∷ codes "b = 2\n" ∷ replicate 252 46 ∷ codes "end\n" ∷ []

fclose-writes_example :
    (f : OutFile) × (writes lines (opened (λ _. 0)) ≡ some f) × (fclose f ≡ joined lines)
fclose-writes_example = fclose-writes lines (λ _. 0)

-- A file of which nothing is in the buffer yet, which is read in pieces of 5 bytes.
abbrev fresh : InFile
fresh = record { buf = λ _. 0; buf_pos = 0; buf_len = 0; rest = codes "nodeaddr = 0\nx\n" }

fgets_loop-fgets_example :
    (f' : InFile) × (fgets_loop (λ _. 5) 255 fresh ≡ some ((fgets 255 (unread fresh)).0, f'))
    × (unread f' ≡ (fgets 255 (unread fresh)).1)
    × IsReading f'
fgets_loop-fgets_example =
    fgets_loop-fgets (λ _. 5) (λ _. omega arith) (λ _ _. omega arith) 255 fresh
      (record { position = omega arith; within = omega arith })
