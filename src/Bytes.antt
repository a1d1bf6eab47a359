-- ===== src/Bytes.antt =====
-- Kernel/lib/lib.c: filling and copying memory, a map from addresses to bytes, and the length of a
-- string.
use so_tp.Base.{
  ℕ, zero, suc, ◌+◌, ◌-◌, ◌*◌, ◌/◌, ◌%◌, ◌≡◌, ◌≢◌, ◌<◌, ◌≤◌, ◌⊎◌, refl, sym, ◌∙◌, ap, subst, inl,
  inr, arith, ◌&&◌, Option, none, some, List, [], ◌∷◌, ◌==◌, leb, if◌then◌else◌, update,
  update_self, update_ne, Bool-cases, if_true, if_false,
}

-- The loop of `memset`, from the last byte down.
unfoldable pub fill : ℕ → (ℕ → ℕ) → ℕ → ℕ → ℕ → ℕ
fill zero m destination chr = m
fill (suc length) m destination chr =
    fill length (update m (destination + length) chr) destination chr

unfoldable pub memset : (ℕ → ℕ) → ℕ → ℕ → ℕ → ℕ → ℕ
memset m destination c length = fill length m destination (c % 256)

abbrev pub read_bytes : (ℕ → ℕ) → ℕ → ℕ → List ℕ
read_bytes m a zero = []
read_bytes m a (suc n) = m a ∷ read_bytes m (a + 1) n

abbrev pub write_bytes : (ℕ → ℕ) → ℕ → List ℕ → ℕ → ℕ
write_bytes m a [] = m
write_bytes m a (v ∷ vs) = write_bytes (update m a v) (a + 1) vs

-- A loop of `memcpy`, over `n` numbers of `width` bytes from the offset `i` on.
unfoldable pub copy_units : ℕ → ℕ → ℕ → ℕ → ℕ → (ℕ → ℕ) → ℕ → ℕ
copy_units width zero i d s m = m
copy_units width (suc n) i d s m =
    copy_units width n (i + width) d s (write_bytes m (d + i) (read_bytes m (s + i) width))

unfoldable pub memcpy : (ℕ → ℕ) → ℕ → ℕ → ℕ → ℕ → ℕ
memcpy m destination source length =
    if destination % 4 == 0 && source % 4 == 0 && length % 4 == 0
    then copy_units 4 (length / 4) 0 destination source m
    else copy_units 1 length 0 destination source m

-- The loop of `strlen`, over the characters of a string; the first 0 ends it.
unfoldable pub count_characters : List ℕ → ℕ
count_characters [] = 0
count_characters (c ∷ cs) = let rest = count_characters cs in if c == 0 then 0 else rest + 1

-- `none` is NULL.
unfoldable pub strlen : Option (List ℕ) → ℕ
strlen none = 0
strlen (some s) = count_characters s

-- The `n` bytes at `d + i` are those that were at `s + i`, and no other byte has changed.
pub record Copied (m m' : ℕ → ℕ) (d s i n : ℕ) : Type 0 where
  pub copied : (k : ℕ) → i ≤ k → k < i + n → m' (d + k) ≡ m (s + k)
  pub kept : (a : ℕ) → (a < d + i) ⊎ (d + i + n ≤ a) → m' a ≡ m a

write_kept :
    (m : ℕ → ℕ) (m0 : ℕ → ℕ) (a b n x : ℕ)
    → (x < a) ⊎ (a + n ≤ x)
    → write_bytes m a (read_bytes m0 b n) x ≡ m x
write_kept m m0 a b zero x h = refl
write_kept m m0 a b (suc n) x h =
    write_kept (update m a (m0 b)) m0 (a + 1) (b + 1) n x (beyond h)
    ∙ update_ne m a x (m0 b) (apart h)
  where
    beyond : (x < a) ⊎ (a + suc n ≤ x) → (x < a + 1) ⊎ (a + 1 + n ≤ x)
    beyond (inl l) = inl (omega (arith, l))
    beyond (inr l) = inr (omega (arith, l))

    apart : (x < a) ⊎ (a + suc n ≤ x) → a ≢ x
    apart (inl l) = omega (arith, l)
    apart (inr l) = omega (arith, l)

plus_zero : (a : ℕ) → a + 0 ≡ a
plus_zero a = omega arith

shift : (a k : ℕ) → a + suc k ≡ a + 1 + k
shift a k = omega arith

split : (d i k : ℕ) → i ≤ k → d + k ≡ d + i + (k - i)
split d i k l = omega (arith, l)

write_copied :
    (m : ℕ → ℕ) (m0 : ℕ → ℕ) (a b n k : ℕ)
    → k < n
    → write_bytes m a (read_bytes m0 b n) (a + k) ≡ m0 (b + k)
write_copied m m0 a b zero k h = absurd (omega (arith, h))
write_copied m m0 a b (suc n) zero h =
    write_kept (update m a (m0 b)) m0 (a + 1) (b + 1) n (a + 0) (inl (omega arith))
    ∙ ap (update m a (m0 b)) (plus_zero a)
    ∙ update_self m a (m0 b)
    ∙ ap m0 (sym (plus_zero b))
write_copied m m0 a b (suc n) (suc k) h =
    ap (write_bytes (update m a (m0 b)) (a + 1) (read_bytes m0 (b + 1) n)) (shift a k)
    ∙ write_copied (update m a (m0 b)) m0 (a + 1) (b + 1) n k (omega (arith, h))
    ∙ ap m0 (sym (shift b k))

unit-Copied :
    (m : ℕ → ℕ) (d s i w : ℕ) → Copied m (write_bytes m (d + i) (read_bytes m (s + i) w)) d s i w
unit-Copied m d s i w = record {
  copied = λ k l u.
      ap (write_bytes m (d + i) (read_bytes m (s + i) w)) (split d i k l)
      ∙ write_copied m m (d + i) (s + i) w (k - i) (omega (arith, l, u))
      ∙ ap m (sym (split s i k l));
  kept = λ a h. write_kept m m (d + i) (s + i) w a h;
}

-- The two ranges of `n` bytes have none in common.
abbrev pub Disjoint : ℕ → ℕ → ℕ → Type 0
Disjoint d s n = (d + n ≤ s) ⊎ (s + n ≤ d)

Copied-trans :
    (m m1 m2 : ℕ → ℕ) (d s i w n len : ℕ)
    → Disjoint d s len
    → i + w + n ≤ len
    → Copied m m1 d s i w
    → Copied m1 m2 d s (i + w) n
    → Copied m m2 d s i (w + n)
Copied-trans m m1 m2 d s i w n len j b p q = record {
  copied = λ k l u. elim (Bool-cases (leb (i + w) k)) [
    | inl e ↦ q.copied k (ground (arith, e)) (omega (arith, u)) ∙ p.kept (s + k) (source j k l u)
    | inr e ↦ q.kept (d + k) (inl (ground (arith, e))) ∙ p.copied k l (ground (arith, e))
  ];
  kept = λ a h. q.kept a (behind a h) ∙ p.kept a (before a h);
}
  where
    source :
        Disjoint d s len → (k : ℕ) → i ≤ k → k < i + (w + n) → (s + k < d + i) ⊎ (d + i + w ≤ s + k)
    source (inl g) k l u = inr (omega (arith, g, l, u, b))
    source (inr g) k l u = inl (omega (arith, g, l, u, b))

    behind :
        (a : ℕ) → (a < d + i) ⊎ (d + i + (w + n) ≤ a) → (a < d + (i + w)) ⊎ (d + (i + w) + n ≤ a)
    behind a (inl g) = inl (omega (arith, g))
    behind a (inr g) = inr (omega (arith, g))

    before : (a : ℕ) → (a < d + i) ⊎ (d + i + (w + n) ≤ a) → (a < d + i) ⊎ (d + i + w ≤ a)
    before a (inl g) = inl g
    before a (inr g) = inr (omega (arith, g))

-- The bytes of `n` numbers.
abbrev units : ℕ → ℕ → ℕ
units width zero = 0
units width (suc n) = width + units width n

ones : (n : ℕ) → units 1 n ≡ n
ones zero = refl
ones (suc n) = omega (arith, ones n)

fours : (n : ℕ) → units 4 n ≡ 4 * n
fours zero = refl
fours (suc n) = omega (arith, fours n)

words_of : (n : ℕ) → n % 4 ≡ 0 → units 4 (n / 4) ≡ n
words_of n h = omega (arith, fours (n / 4), h)

units-Copied :
    (width n i d s : ℕ) (m : ℕ → ℕ) (len : ℕ)
    → Disjoint d s len
    → i + units width n ≤ len
    → Copied m (copy_units width n i d s m) d s i (units width n)
unfolding copy_units
units-Copied width zero i d s m len j b = record {
  copied = λ k l u. absurd (omega (arith, l, u));
  kept = λ a h. refl;
}
units-Copied width (suc n) i d s m len j b =
    let m1 = write_bytes m (d + i) (read_bytes m (s + i) width) in
    Copied-trans m m1 (copy_units width n (i + width) d s m1) d s i width (units width n) len j
      (omega (arith, b)) (unit-Copied m d s i width)
      (units-Copied width n (i + width) d s m1 len j (omega (arith, b)))

-- `memcpy` copies exactly `length` bytes and changes no other, whether it goes by words or by bytes,
-- between two ranges that have no byte in common.
pub memcpy-Copied :
    (m : ℕ → ℕ) (destination source length : ℕ)
    → Disjoint destination source length
    → Copied m (memcpy m destination source length) destination source 0 length
unfolding memcpy
memcpy-Copied m d s length j = elim (Bool-cases (d % 4 == 0 && s % 4 == 0 && length % 4 == 0)) [
  | inl e ↦
      subst (λ z. Copied m z d s 0 length)
        (sym (if_true (d % 4 == 0 && s % 4 == 0 && length % 4 == 0) _ _ e))
        (subst (Copied m (copy_units 4 (length / 4) 0 d s m) d s 0)
          (words_of length (ground (arith, e)))
          (units-Copied 4 (length / 4) 0 d s m length j
            (omega (arith, words_of length (ground (arith, e))))))
  | inr e ↦
      subst (λ z. Copied m z d s 0 length)
        (sym (if_false (d % 4 == 0 && s % 4 == 0 && length % 4 == 0) _ _ e))
        (subst (Copied m (copy_units 1 length 0 d s m) d s 0) (ones length)
          (units-Copied 1 length 0 d s m length j (omega (arith, ones length))))
]
