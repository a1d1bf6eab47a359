-- ===== src/Keyboard/Keys.antt =====
-- Kernel/drivers/keyBoardDriver.c: the modifier keys and the characters of the keys.
use so_tp.Base.{ℕ, ◌≡◌, ◌<◌, inl, inr, ◌⊎◌, true, arith, ltb, Bool-cases}
use so_tp.Keyboard.{Keyboard, capitalise, sc_to_ascii, is_silent, table_entry}

capitalise-lower : (c : ℕ) → (capitalise true c < 97) ⊎ (122 < capitalise true c)
unfolding capitalise
capitalise-lower c = ground arith

-- While Caps Lock is on, no key gives a small letter.
pub sc_to_ascii-caps :
    (k : Keyboard) (scancode : ℕ)
    → k.active_caps_lock ≡ true
    → (sc_to_ascii k scancode < 97) ⊎ (122 < sc_to_ascii k scancode)
unfolding sc_to_ascii
sc_to_ascii-caps k scancode h = elim (Bool-cases (is_silent scancode)) [
  | inl e ↦ rw e (inl (omega arith))
  | inr e ↦ elim (Bool-cases (ltb scancode 0x54)) [
    | inl g ↦ rw (e, g, h) (capitalise-lower (table_entry k.active_shift scancode))
    | inr g ↦ rw (e, g) (inl (omega arith))
  ]
]
