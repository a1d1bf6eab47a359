-- ===== src/Memory/FreeList.antt =====
-- Kernel/mm/mm_simple.c: `free_list_remove` and `free_list_insert` in a heap.
use so_tp.Base.{
  ℕ, ◌≡◌, ◌≢◌, refl, sym, ◌∙◌, List, [], ◌∷◌, All, All-map, elem, erase, NotIn, eq-cases, inl, inr,
  eq→==, ne→==, true, false, elem-erase_ne, NotIn-erase, NotIn-erase_self, Distinct-erase,
  All-erase,
}
use so_tp.Memory.{
  Heap, block_size, block_is_allocated, free_list_remove, free_list_insert, clear_free_links,
  set_free_links,
}
use so_tp.Memory.Ring.{Ring, Unlinked, Linked, Ring-Unlinked, Ring-Linked, next_self, prev_self}
use so_tp.Memory.WellFormed.{Loose, Loose-Below, Loose-sentinel, Loose-apart}

remove-Unlinked :
    (h : Heap) (b : ℕ)
    → h.prev_free b ≢ b
    → h.next_free b ≢ b
    → Unlinked h.prev_free h.next_free
        (free_list_remove h b).prev_free
        (free_list_remove h b).next_free
        b
unfolding free_list_remove clear_free_links set_free_links
remove-Unlinked h b p n = record {
  next_before =
      rw (ne→== b (h.prev_free b) (λ e. p (sym e)), eq→== (h.prev_free b) (h.prev_free b) refl);
  prev_behind = rw (
    ne→== (h.prev_free b) b p,
    ne→== b (h.next_free b) (λ e. n (sym e)),
    eq→== (h.next_free b) (h.next_free b) refl,
  );
  next_kept = λ x i j. rw (ne→== b x (λ e. i (sym e)), ne→== (h.prev_free b) x (λ e. j (sym e)));
  prev_kept = λ x i j. rw (
    ne→== b x (λ e. i (sym e)),
    ne→== (h.prev_free b) b p,
    ne→== (h.next_free b) x (λ e. j (sym e)),
  );
}

insert-Linked :
    (h : Heap) (b : ℕ)
    → b ≢ h.sentinel
    → h.next_free h.sentinel ≢ b
    → Linked h.prev_free h.next_free
        (free_list_insert h b).prev_free
        (free_list_insert h b).next_free
        h.sentinel
        b
unfolding free_list_insert set_free_links
insert-Linked h b p n = record {
  next_before = rw (eq→== h.sentinel h.sentinel refl);
  next_new = rw (ne→== h.sentinel b (λ e. p (sym e)), eq→== b b refl);
  prev_new = rw (ne→== b h.sentinel p, ne→== (h.next_free h.sentinel) b n, eq→== b b refl);
  prev_behind =
      rw (ne→== b h.sentinel p, eq→== (h.next_free h.sentinel) (h.next_free h.sentinel) refl);
  next_kept = λ x i j. rw (ne→== h.sentinel x (λ e. j (sym e)), ne→== b x (λ e. i (sym e)));
  prev_kept = λ x i j. rw (
    ne→== b h.sentinel p,
    ne→== (h.next_free h.sentinel) x (λ e. j (sym e)),
    ne→== b x (λ e. i (sym e)),
  );
}

pub Loose-free_list_remove :
    (h : Heap) (bs fs : List ℕ) (stop e b : ℕ)
    → Loose h bs fs stop e 0
    → elem b fs ≡ true
    → Loose (free_list_remove h b) bs (erase b fs) stop e b
unfolding free_list_remove clear_free_links set_free_links block_size block_is_allocated
Loose-free_list_remove h bs fs stop e b w m =
    let s = Loose-sentinel h bs fs stop e 0 w in
    record {
      tiles = w.tiles;
      ring =
          Ring-Unlinked h.prev_free h.next_free (free_list_remove h b).prev_free
            (free_list_remove h b).next_free h.sentinel fs h.sentinel b
            (remove-Unlinked h b
              (prev_self h.prev_free h.next_free h.sentinel fs h.sentinel b w.ring m w.distinct s)
              (next_self h.prev_free h.next_free h.sentinel fs h.sentinel b w.ring m w.distinct s))
            w.ring m s w.distinct s;
      distinct = Distinct-erase b fs w.distinct;
      apart = w.apart;
      listed = All-erase (λ x. elem x bs ≡ true) b fs w.listed;
      free = All-erase (λ x. block_is_allocated h x ≡ false) b fs w.free;
      complete = λ x k i j f.
          elem-erase_ne x b fs j ∙ w.complete x k i (Loose-Below h bs fs stop e 0 w x k).2 f;
      out1 = NotIn-erase e b fs w.out1;
      out2 = NotIn-erase_self b fs w.distinct;
      bounded = w.bounded;
    }

pub Loose-free_list_insert :
    (h : Heap) (bs fs : List ℕ) (stop e b : ℕ)
    → Loose h bs fs stop e b
    → elem b bs ≡ true
    → block_is_allocated h b ≡ false
    → e ≢ b
    → Loose (free_list_insert h b) bs (b ∷ fs) stop e 0
unfolding free_list_insert set_free_links block_size block_is_allocated
Loose-free_list_insert h bs fs stop e b w m f g =
    let nz = (Loose-Below h bs fs stop e b w b m).2 in
    let ne : b ≢ h.sentinel = Loose-apart h bs fs stop e b w b m in
    record {
      tiles = w.tiles;
      ring =
          Ring-Linked h.prev_free h.next_free (free_list_insert h b).prev_free
            (free_list_insert h b).next_free h.sentinel fs b
            (insert-Linked h b ne (not_first fs w.ring w.out2 ne)) w.ring
            (Loose-sentinel h bs fs stop e b w) w.out2 w.distinct ne;
      distinct = (w.out2, w.distinct);
      apart = w.apart;
      listed = (m, w.listed);
      free = (f, w.free);
      complete = λ x k i j g. now x fs (λ n. w.complete x k i n g);
      out1 = ((λ k. g (sym k)), w.out1);
      out2 = (nz, zero_out fs w.listed);
      bounded = w.bounded;
    }
  where
    not_first :
        (fs : List ℕ)
        → Ring h.prev_free h.next_free h.sentinel fs h.sentinel
        → NotIn b fs
        → b ≢ h.sentinel
        → h.next_free h.sentinel ≢ b
    not_first [] r n k = λ z. k (sym z ∙ r.0)
    not_first (x ∷ xs) r n k = λ z. n.0 (sym r.0 ∙ z)

    now : (x : ℕ) (fs : List ℕ) → (x ≢ b → elem x fs ≡ true) → elem x (b ∷ fs) ≡ true
    now x fs k = elim (eq-cases b x) [
      | inl same ↦ rw (eq→== b x same)
      | inr other ↦ rw (ne→== b x other, k (λ z. other (sym z)))
    ]

    zero_out : (xs : List ℕ) → All (λ x. elem x bs ≡ true) xs → NotIn 0 xs
    zero_out xs a =
        All-map {P = λ x. elem x bs ≡ true} (λ x k. (Loose-Below h bs fs stop e b w x k).2) xs a
