-- ===== src/Pipe/Queue.antt =====
-- A pipe stands for a queue of at most 512 bytes.
use kernel_tracing.Prelude.{
  ℕ, zero, suc, ◌+◌, ◌-◌, ◌%◌, ◌^◌, ◌≤◌, ◌<◌, ◌≡◌, ap, ◌∙◌, Bool, List, [], ◌∷◌, ◌++◌, arith, ◌==◌,
}
use kernel_tracing.Ring
use kernel_tracing.Ring.{window, IsRing}
use kernel_tracing.Str.{Bytes}
use kernel_tracing.Pipe.{Pipe, pipesize, put, is_full}

abbrev pub slot : ℕ → ℕ
slot i = i % pipesize

pub slot-IsRing : IsRing pipesize slot
slot-IsRing = record {
  positive = omega arith;
  apart = λ i d lo hi. omega arith;
  follows = λ i j h. omega arith;
}

-- The number of bytes in the pipe, and these bytes, the oldest first.
abbrev pub used : Pipe → ℕ
used p = (p.nwrite + 2 ^ 32 - p.nread) % 2 ^ 32

abbrev pub content : Pipe → List ℕ
content p = window slot p.bytes p.nread (used p)

pub record IsSound (p : Pipe) : Type 0 where
  pub nread_fits : p.nread < 2 ^ 32
  pub nwrite_fits : p.nwrite < 2 ^ 32
  pub bounded : used p ≤ pipesize

-- The `n` bytes from addr[i] on.
abbrev pub bytes_at : Bytes → (i n : ℕ) → List ℕ
bytes_at addr i zero = []
bytes_at addr i (suc n) = addr i ∷ bytes_at addr (i + 1) n

pub is_full-used : (p : Pipe) → IsSound p → is_full p ≡ (used p == 512)
is_full-used p s = ground arith

pub put-content :
    (c : ℕ) (p : Pipe)
    → IsSound p
    → used p < 512
    → IsSound (put c p) × (content (put c p) ≡ content p ++ c ∷ [])
put-content c p s h =
    let n : used (put c p) ≡ suc (used p) = omega (arith, s.nread_fits, s.nwrite_fits) in
    (
      record { nread_fits = s.nread_fits; nwrite_fits = omega arith; bounded = omega (arith, n) },
      ap (window slot (put c p).bytes p.nread) n
          ∙ Ring.window-push 512 slot slot-IsRing p.bytes c p.nread (used p) p.nwrite h
              (omega (arith, s.nread_fits, s.nwrite_fits)),
    )

-- The lock is no part of the queue.
pub relock : (p : Pipe) (l : Bool) → IsSound p → IsSound (record p { lock = l })
relock p l s = record {
  nread_fits = s.nread_fits;
  nwrite_fits = s.nwrite_fits;
  bounded = s.bounded;
}
