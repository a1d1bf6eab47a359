-- ===== src/Memory/Cut.antt =====
-- Kernel/mm/mm_simple.c: a block cut in two.
use so_tp.Base.{
  ℕ, ◌+◌, ◌-◌, ◌≡◌, ◌≢◌, ◌<◌, ◌≤◌, sym, ◌∙◌, ap, List, [], ◌∷◌, arith, All, All-map, first_or,
}
use so_tp.Queue.Chain.{last_or}
use so_tp.Memory.Tiles.{Tiles, Tiles-above, Tiles-Below, Below, Agree, Tiles-Agree}

-- What the writes that cut `m` off the end of `b`, leaving it the size `r`, make of the fields.
pub record CutAt (prev next size prev' next' size' : ℕ → ℕ) (b m r : ℕ) : Type 0 where
  pub prev_new : prev' m ≡ b
  pub prev_next : next b ≢ 0 → prev' (next b) ≡ m
  pub prev_kept : (x : ℕ) → x ≢ m → x ≢ next b → prev' x ≡ prev x
  pub next_block : next' b ≡ m
  pub next_new : next' m ≡ next b
  pub next_kept : (x : ℕ) → x ≢ m → x ≢ b → next' x ≡ next x
  pub size_block : size' b ≡ r
  pub size_new : size' m ≡ size b - r
  pub size_kept : (x : ℕ) → x ≢ m → x ≢ b → size' x ≡ size x

module _ {prev next size prev' next' size' : ℕ → ℕ} where
  cut-Agree :
      (b m r x : ℕ)
      → CutAt prev next size prev' next' size' b m r
      → x ≢ m
      → x ≢ b
      → x ≢ next b
      → Agree prev next size prev' next' size' x
  cut-Agree b m r x c i j k = (c.prev_kept x i k, c.next_kept x i j, c.size_kept x i j)

  -- The blocks behind the cut.
  cut_behind :
      (b m r : ℕ) (vs : List ℕ) (stop : ℕ)
      → CutAt prev next size prev' next' size' b m r
      → b + r ≡ m
      → r < size b
      → next b ≡ first_or 0 vs
      → All (λ x. b + size b ≤ x) vs
      → Tiles prev next size b vs 0 stop
      → Tiles prev' next' size' m vs 0 stop
  cut_behind b m r [] stop c e h n a t = tt
  cut_behind b m r (v ∷ vs) stop c e h n a t =
      let above =
        (Tiles-above prev next size v vs 0 stop (v + size v) t.5 (omega (arith, t.2))).0 in
      (
        (ap prev' (sym n) ∙ c.prev_next (λ z. t.4 (sym n ∙ z))),
        (c.next_kept v (ne_m (a.0)) (ne_b (a.0)) ∙ t.1),
        (ap (λ s. v + s) (c.size_kept v (ne_m (a.0)) (ne_b (a.0))) ∙ t.2),
        omega (arith, c.size_kept v (ne_m (a.0)) (ne_b (a.0)), t.3),
        t.4,
        Tiles-Agree prev next size prev' next' size' v vs 0 stop
            (All-map
              (λ x k.
                cut-Agree b m r x c (omega (arith, k, a.0, e, h)) (omega (arith, k, a.0, e, h, t.3))
                  (omega (arith, k, n, t.3)))
              vs above)
            t.5,
      )
    where
      ne_m : {v : ℕ} → b + size b ≤ v → v ≢ m
      ne_m k = omega (arith, k, e, h)

      ne_b : {v : ℕ} → b + size b ≤ v → v ≢ b
      ne_b k = omega (arith, k, h)

  pub Tiles-CutAt :
      (before b m r : ℕ) (vs : List ℕ) (stop : ℕ)
      → CutAt prev next size prev' next' size' b m r
      → b + r ≡ m
      → 56 ≤ r
      → r + 56 ≤ size b
      → Tiles prev next size before (b ∷ vs) 0 stop
      → Tiles prev' next' size' before (b ∷ m ∷ vs) 0 stop
  Tiles-CutAt before b m r vs stop c e p q t =
      let above =
        (Tiles-above prev next size b vs 0 stop (b + size b) t.5 (omega (arith, t.2))).0 in
      (
        (c.prev_kept b (omega (arith, e, p)) (ne_next vs t.1 above) ∙ t.0),
        c.next_block,
        (ap (λ s. b + s) c.size_block ∙ e),
        omega (arith, c.size_block, p),
        t.4,
        (
          c.prev_new,
          (c.next_new ∙ t.1),
          omega (arith, c.size_new, t.2, e, q),
          omega (arith, c.size_new, q),
          omega (arith, e, p),
          cut_behind b m r vs stop c e (omega (arith, q)) t.1 above t.5,
        ),
      )
    where
      ne_next : (vs : List ℕ) → next b ≡ first_or 0 vs → All (λ x. b + size b ≤ x) vs → b ≢ next b
      ne_next [] n a = λ z. t.4 (z ∙ n)
      ne_next (v ∷ vs) n a = omega (arith, n, a.0, q)

  -- The blocks before the cut.
  pub cut_ahead :
      (before b m r : ℕ) (us vs : List ℕ) (stop : ℕ)
      → CutAt prev next size prev' next' size' b m r
      → b ≤ m
      → Tiles prev next size (last_or before us) (b ∷ vs) 0 stop
      → Tiles prev next size before us b b
      → Tiles prev' next' size' before us b b
  cut_ahead before b m r us vs stop c e t u =
      Tiles-Agree prev next size prev' next' size' before us b b
        (All-map
          (λ x k. cut-Agree b m r x c (omega (arith, k.0, k.1, e)) (omega (arith, k.0, k.1)) (
            ne_next vs t.1
              (Tiles-above prev next size b vs 0 stop (b + size b) t.5 (omega (arith, t.2))).0 x k))
          us (Tiles-Below prev next size before us b b u))
        u
    where
      ne_next :
          (vs : List ℕ)
          → next b ≡ first_or 0 vs
          → All (λ x. b + size b ≤ x) vs
          → (x : ℕ) → Below size b x
          → x ≢ next b
      ne_next [] n a x k = λ z. k.2 (z ∙ n)
      ne_next (v ∷ vs) n a x k = omega (arith, n, a.0, k.0, k.1)
