-- ===== src/Ring.antt =====
-- Ring buffers: `slot i` is the array index that counter value `i` uses. The rings of ktrace.c, trace.c
-- and pipe.c are instances.
use kernel_tracing.Prelude.{
  ℕ, zero, suc, ◌+◌, ◌-◌, ◌≤◌, ◌<◌, ◌≡◌, ◌≢◌, refl, ap, ap₂, ◌∙◌, subst, sym, List, [], ◌∷◌, ◌++◌,
  arith, update, length, drop,
}

-- The items in the slots of the `n` counter values from `r` on.
abbrev pub window {ℓ} : {A : Type ℓ} → (ℕ → ℕ) → (ℕ → A) → (r n : ℕ) → List A
window slot buf r zero = []
window slot buf r (suc n) = buf (slot r) ∷ window slot buf (r + 1) n

-- What the index computation `counter % size` gives: neighbours within `size` are apart, and equal
-- indices stay equal when both counters go up by one.
pub record IsRing (size : ℕ) (slot : ℕ → ℕ) : Type 0 where
  pub positive : 0 < size
  pub apart : (i d : ℕ) → 0 < d → d < size → slot (i + d) ≢ slot i
  pub follows : (i j : ℕ) → slot i ≡ slot j → slot (i + 1) ≡ slot (j + 1)

module _ {ℓ} {A : Type ℓ} (size : ℕ) (slot : ℕ → ℕ) (ring : IsRing size slot) where
  pub length-window : (buf : ℕ → A) (r n : ℕ) → length (window slot buf r n) ≡ n
  length-window buf r zero = refl
  length-window buf r (suc n) = ap suc (length-window buf (r + 1) n)

  -- Counters with the same index show the same items.
  pub window-wraps :
      (buf : ℕ → A) (r s n : ℕ) → slot r ≡ slot s → window slot buf r n ≡ window slot buf s n
  window-wraps buf r s zero h = refl
  window-wraps buf r s (suc n) h =
      ap₂ ◌∷◌ (ap buf h) (window-wraps buf (r + 1) (s + 1) n (ring.follows r s h))

  -- A store to the slot behind the window changes none of its items.
  window-update_beyond :
      (buf : ℕ → A) (x : A) (n r e : ℕ)
      → r + n ≤ e
      → e < r + size
      → window slot (update buf (slot e) x) r n ≡ window slot buf r n
  window-update_beyond buf x zero r e lo hi = refl
  window-update_beyond buf x (suc n) r e lo hi =
      let d : r + (e - r) ≡ e = omega arith in
      let other : slot e ≢ slot r = rw d at (ring.apart r (e - r) (omega arith) (omega arith)) in
      ap₂ ◌∷◌ (ground arith) (window-update_beyond buf x n (r + 1) e (omega arith) (omega arith))

  pub window-suc :
      (buf : ℕ → A) (r n : ℕ)
      → window slot buf r (suc n) ≡ window slot buf r n ++ buf (slot (r + n)) ∷ []
  window-suc buf r zero = let e : r + 0 ≡ r = omega arith in rw e
  window-suc buf r (suc n) =
      let e : r + suc n ≡ r + 1 + n = omega arith in
      rw e (ap (λ l. buf (slot r) ∷ l) (window-suc buf (r + 1) n))

  -- An item stored behind a window that is not full, at counter value `w`, is added at its end.
  pub window-push :
      (buf : ℕ → A) (x : A) (r n w : ℕ)
      → n < size
      → slot w ≡ slot (r + n)
      → window slot (update buf (slot w) x) r (suc n) ≡ window slot buf r n ++ x ∷ []
  window-push buf x r n w h e =
      subst (λ i. window slot (update buf i x) r (suc n) ≡ window slot buf r n ++ x ∷ []) (sym e)
        (window-suc (update buf (slot (r + n)) x) r n
          ∙ ap₂ (λ l y. l ++ y ∷ [])
              (window-update_beyond buf x n r (r + n) (omega arith) (omega arith)) (ground arith))

  pub window-drop :
      (buf : ℕ → A) (k r n : ℕ) → drop k (window slot buf r (k + n)) ≡ window slot buf (r + k) n
  window-drop buf zero r n =
      let e : 0 + n ≡ n = omega arith in let d : r + 0 ≡ r = omega arith in rw (e, d)
  window-drop buf (suc k) r n =
      let e : suc k + n ≡ suc (k + n) = omega arith in
      let d : r + suc k ≡ r + 1 + k = omega arith in rw (e, d) (window-drop buf k (r + 1) n)
