-- ===== src/Text/Format/Bounds.antt =====
-- `vsnprintf` stays within the size that it is given, and leaves the text that PUT was given, cut.
use sn.Base.{ℕ, ◌+◌, ◌-◌, suc, ◌&&◌, List, length, get_or, ltb, leb, if◌then◌else◌, stored}

-- The buffer after `s` was put at `at`, below `m`.
abbrev filled : ℕ → List ℕ → ℕ → (ℕ → ℕ) → ℕ → ℕ
filled m s at buf i =
    if leb at i && ltb i (at + length s) && ltb i m then get_or s (i - at) 0 else buf i

abbrev after_put : ℕ → ℕ → ℕ → (ℕ → ℕ) → ℕ → ℕ
after_put m c at buf = if ltb at m then stored buf at c else buf

-- Where the NUL byte goes.
abbrev stop_at : ℕ → ℕ → ℕ
stop_at m len = if ltb len (suc m) then len else m
