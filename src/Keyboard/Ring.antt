-- ===== src/Keyboard/Ring.antt =====
-- Kernel/drivers/keyBoardDriver.c: the circular buffer holds a queue of characters.
use so_tp.Base.{
  ℕ, zero, suc, ◌+◌, ◌-◌, ◌%◌, ◌≡◌, ◌≢◌, ◌<◌, ◌≤◌, refl, ◌∙◌, ap, inl, inr, ◌⊎◌, true, false, List,
  [], ◌∷◌, ◌++◌, arith, length, update, update_self, update_ne, eq→==, ne→==, eq-cases,
}
use mathlib.Core.Path.{ap₂}
use so_tp.Keyboard.{
  CircleBuffer, buffer_full, buffer_empty, put_char, buffer_push, drop_char, buffer_pop,
}

-- `n` characters from the index `h` on, going round at the end of the buffer.
abbrev pub span : (ℕ → ℕ) → ℕ → ℕ → List ℕ
span buffer h zero = []
span buffer h (suc n) = buffer h ∷ span buffer ((h + 1) % 256) n

abbrev pub characters : CircleBuffer → List ℕ
characters b = span b.buffer b.read_index b.size

-- The indices are in range, and the writer is `size` characters ahead of the reader.
pub record IsRing (b : CircleBuffer) : Type 0 where
  pub read_in : b.read_index < 256
  pub write_in : b.write_index < 256
  pub size_in : b.size ≤ 256
  pub ahead : b.write_index ≡ (b.read_index + b.size) % 256

length-span : (buffer : ℕ → ℕ) (h n : ℕ) → length (span buffer h n) ≡ n
length-span buffer h zero = refl
length-span buffer h (suc n) = ap suc (length-span buffer ((h + 1) % 256) n)

written_at : (buffer : ℕ → ℕ) (w h c : ℕ) → w ≡ h → update buffer w c h ≡ c
written_at buffer w h c e = rw e (update_self buffer h c)

span-update :
    (buffer : ℕ → ℕ) (h n w c : ℕ)
    → h < 256
    → n < 256
    → w ≡ (h + n) % 256
    → span (update buffer w c) h (suc n) ≡ span buffer h n ++ c ∷ []
span-update buffer h zero w c hh hn e = ap (λ x. x ∷ []) (written_at buffer w h c (omega arith))
span-update buffer h (suc n) w c hh hn e =
    ap₂ ◌∷◌ (update_ne buffer w h c (omega arith))
      (span-update buffer ((h + 1) % 256) n w c (omega arith) (omega arith) (omega arith))

span_pred :
    (buffer : ℕ → ℕ) (h n : ℕ)
    → n ≢ 0
    → span buffer h n ≡ buffer h ∷ span buffer ((h + 1) % 256) (n - 1)
span_pred buffer h zero z = absurd (z refl)
span_pred buffer h (suc n) z = ap (λ k. buffer h ∷ span buffer ((h + 1) % 256) k) (omega arith)

span-suc : (buffer : ℕ → ℕ) (h n : ℕ) → span buffer h (n + 1) ≡ span buffer h (suc n)
span-suc buffer h n = ap (span buffer h) {y = suc n} (omega arith)

put_char-IsRing : (b : CircleBuffer) (c : ℕ) → IsRing b → b.size ≢ 256 → IsRing (put_char b c)
unfolding put_char
put_char-IsRing b c r n = omega arith

drop_char-IsRing : (b : CircleBuffer) → IsRing b → b.size ≢ 0 → IsRing (drop_char b)
unfolding drop_char
drop_char-IsRing b r n = omega arith

characters-put_char :
    (b : CircleBuffer) (c : ℕ)
    → IsRing b
    → b.size ≢ 256
    → characters (put_char b c) ≡ characters b ++ c ∷ []
unfolding put_char
characters-put_char b c r n =
    span-suc (update b.buffer b.write_index c) b.read_index b.size
    ∙ span-update b.buffer b.read_index b.size b.write_index c r.read_in (omega arith) r.ahead

characters-drop_char :
    (b : CircleBuffer)
    → b.size ≢ 0
    → characters b ≡ b.buffer b.read_index ∷ characters (drop_char b)
unfolding drop_char
characters-drop_char b n = span_pred b.buffer b.read_index b.size n

-- A push into a valid buffer answers 1 and puts the character behind the others, or, only if 256
-- characters are stored, answers 0 and changes nothing. The buffer stays valid.
pub buffer_push-IsRing :
    (b : CircleBuffer) (c : ℕ)
    → IsRing b
    → let (b', stored) = buffer_push b c in
      IsRing b'
      × (((stored ≡ true) × (characters b' ≡ characters b ++ c ∷ []))
          ⊎ ((stored ≡ false) × (b' ≡ b) × (length (characters b) ≡ 256)))
unfolding buffer_push buffer_full
buffer_push-IsRing b c r = elim (eq-cases b.size 256) [
  | inl e ↦
      rw (eq→== b.size 256 e) (r, inr (refl, refl, (length-span b.buffer b.read_index b.size ∙ e)))
  | inr n ↦
      rw (ne→== b.size 256 n) (put_char-IsRing b c r n, inl (refl, characters-put_char b c r n))
]

-- A pop from a valid buffer answers the oldest character and takes it out, or, only if none is
-- stored, answers 0 and changes nothing. The buffer stays valid.
pub buffer_pop-IsRing :
    (b : CircleBuffer)
    → IsRing b
    → let (b', c) = buffer_pop b in
      IsRing b' × ((characters b ≡ c ∷ characters b') ⊎ ((c ≡ 0) × (b' ≡ b) × (characters b ≡ [])))
unfolding buffer_pop buffer_empty
buffer_pop-IsRing b r = elim (eq-cases b.size 0) [
  | inl e ↦ rw (eq→== b.size 0 e) (r, inr (refl, refl, ap (span b.buffer b.read_index) e))
  | inr n ↦ rw (ne→== b.size 0 n) (drop_char-IsRing b r n, inl (characters-drop_char b n))
]
