-- ===== src/Pipe/Window.antt =====
-- Kernel/ipc/pipe.c: the bytes that a pipe holds, oldest first, and the two moves of a byte.
use so_tp.Base.{
  ℕ, zero, suc, ◌+◌, ◌-◌, ◌%◌, ◌≡◌, ◌≢◌, ◌<◌, ◌≤◌, refl, ◌∙◌, ap, List, [], ◌∷◌, ◌++◌, arith,
  length, update, update_self, update_ne,
}
use mathlib.Core.Path.{ap₂}
use so_tp.Pipe.{Pipe}
use so_tp.Pipe.Transfer.{take_byte, put_byte}

-- `n` bytes from the index `h` on, going round at the end of the buffer.
abbrev pub window : (ℕ → ℕ) → ℕ → ℕ → List ℕ
window buffer h zero = []
window buffer h (suc n) = buffer h ∷ window buffer ((h + 1) % 4096) n

abbrev pub contents : Pipe → List ℕ
contents p = window p.buffer p.read_pos p.count

-- The indices are in range, and the writer is `count` bytes ahead of the reader.
pub record IsValid (p : Pipe) : Type 0 where
  pub read_in : p.read_pos < 4096
  pub write_in : p.write_pos < 4096
  pub count_in : p.count ≤ 4096
  pub ahead : p.write_pos ≡ (p.read_pos + p.count) % 4096

pub length-window : (buffer : ℕ → ℕ) (h n : ℕ) → length (window buffer h n) ≡ n
length-window buffer h zero = refl
length-window buffer h (suc n) = ap suc (length-window buffer ((h + 1) % 4096) n)

at_self : (buffer : ℕ → ℕ) (w h b : ℕ) → w ≡ h → update buffer w b h ≡ b
at_self buffer w h b e = rw e (update_self buffer h b)

-- A byte written just past a window comes to its end.
window-update :
    (buffer : ℕ → ℕ) (h n w b : ℕ)
    → h < 4096
    → n < 4096
    → w ≡ (h + n) % 4096
    → window (update buffer w b) h (suc n) ≡ window buffer h n ++ b ∷ []
window-update buffer h zero w b hh hn e = ap (λ x. x ∷ []) (at_self buffer w h b (omega arith))
window-update buffer h (suc n) w b hh hn e =
    ap₂ ◌∷◌ (update_ne buffer w h b (omega arith))
      (window-update buffer ((h + 1) % 4096) n w b (omega arith) (omega arith) (omega arith))

pub take_byte-IsValid : (p : Pipe) → IsValid p → p.count ≢ 0 → IsValid (take_byte p)
unfolding take_byte
take_byte-IsValid p v h = omega arith

pub put_byte-IsValid : (p : Pipe) (b : ℕ) → IsValid p → p.count < 4096 → IsValid (put_byte p b)
unfolding put_byte
put_byte-IsValid p b v h = omega arith

window_pred :
    (buffer : ℕ → ℕ) (h n : ℕ)
    → n ≢ 0
    → window buffer h n ≡ buffer h ∷ window buffer ((h + 1) % 4096) (n - 1)
window_pred buffer h zero z = absurd (z refl)
window_pred buffer h (suc n) z = ap (λ k. buffer h ∷ window buffer ((h + 1) % 4096) k) (omega arith)

-- Reading takes the oldest byte off the contents.
pub contents-take_byte :
    (p : Pipe) → p.count ≢ 0 → contents p ≡ p.buffer p.read_pos ∷ contents (take_byte p)
unfolding take_byte
contents-take_byte p z = window_pred p.buffer p.read_pos p.count z

window-suc : (buffer : ℕ → ℕ) (h n : ℕ) → window buffer h (n + 1) ≡ window buffer h (suc n)
window-suc buffer h n = ap (window buffer h) {y = suc n} (omega arith)

-- Writing puts the byte behind the contents.
pub contents-put_byte :
    (p : Pipe) (b : ℕ) → IsValid p → p.count < 4096 → contents (put_byte p b) ≡ contents p ++ b ∷ []
unfolding put_byte
contents-put_byte p b v h =
    window-suc (update p.buffer p.write_pos b) p.read_pos p.count
    ∙ window-update p.buffer p.read_pos p.count p.write_pos b v.read_in h v.ahead

pub length-contents : (p : Pipe) → length (contents p) ≡ p.count
length-contents p = length-window p.buffer p.read_pos p.count
