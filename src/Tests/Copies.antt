-- ===== src/Tests/Copies.antt =====
-- A copy by words.
use so_tp.Base.{ℕ, inl, arith}
use so_tp.Bytes.{memcpy, Copied, memcpy-Copied}

abbrev memory : ℕ → ℕ
memory a = a

memcpy-Copied_example : Copied memory (memcpy memory 4096 8192 64) 4096 8192 0 64
memcpy-Copied_example = memcpy-Copied memory 4096 8192 64 (inl (omega arith))
