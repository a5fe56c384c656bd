-- ===== src/Log/Copies.antt =====
-- A run of disk writes that copies blocks, which both loops of log.c are, and what is on the disk
-- when the power fails inside it.
use kernel_tracing.Prelude.{
  ℕ, zero, suc, ◌+◌, ◌-◌, ◌≤◌, ◌<◌, ◌≡◌, refl, sym, subst, ap, ◌∙◌, ◌≢◌, inl, inr, arith, ◌==◌,
  ==_iff, Bool-cases, update,
}
use native.Mathlib.Decide.{dec_lt}
use kernel_tracing.Log.{Block, Log, Machine, bwrite, copy_block, install_loop, write_loop}

pub bwrite-log : (b : ℕ) (m : Machine) → (bwrite b m).log ≡ m.log
unfolding bwrite
bwrite-log b m = ground arith

pub bwrite-mem : (b : ℕ) (m : Machine) → (bwrite b m).mem ≡ m.mem
unfolding bwrite
bwrite-mem b m = ground arith

pub bwrite-power : (b : ℕ) (m : Machine) → (bwrite b m).power ≡ m.power - 1
unfolding bwrite
bwrite-power b m = ground arith

pub bwrite-off : (b : ℕ) (m : Machine) → m.power ≡ 0 → (bwrite b m).disk ≡ m.disk
unfolding bwrite
bwrite-off b m off = ground arith

pub bwrite-on : (b : ℕ) (m : Machine) → 0 < m.power → (bwrite b m).disk ≡ update m.disk b (m.mem b)
unfolding bwrite
bwrite-on b m on = ground arith

-- Every block on the disk is the one that was there, or the one written.
pub bwrite-disk :
    (P : ℕ → Block → Type 0) (b : ℕ) (m : Machine)
    → P b (m.mem b)
    → ((j : ℕ) → P j (m.disk j))
    → (j : ℕ) → P j ((bwrite b m).disk j)
bwrite-disk P b m put p j = elim (dec_lt 0 m.power) [
  | yes on ↦ elim (Bool-cases (b == j)) [
    | inl q ↦
        subst (λ k. P k ((bwrite b m).disk k)) ((==_iff b j).0 q)
          (subst (P b) (sym (ap (λ d. d b) (bwrite-on b m on) ∙ ground arith)) put)
    | inr q ↦ subst (P j) (sym (ap (λ d. d j) (bwrite-on b m on) ∙ ground arith)) (p j)
  ]
  | no off ↦ subst (λ d. P j (d j)) (sym (bwrite-off b m (omega arith))) (p j)
]

-- Copies of the blocks `from i` to `to i` for i from `tail` on, each written to the disk at once.
unfoldable pub copies : (to from : ℕ → ℕ) (left tail : ℕ) → Machine → Machine
copies to from zero tail m = m
copies to from (suc left) tail m =
    copies to from left (tail + 1) (bwrite (to tail) (copy_block (to tail) (from tail) m))

pub install_loop-copies :
    (left tail : ℕ) (m : Machine) (l : Log)
    → m.log ≡ l
    → install_loop left tail m ≡ copies l.block (λ i. l.start + i + 1) left tail m
unfolding install_loop copies
install_loop-copies zero tail m l e = refl
install_loop-copies (suc left) tail m l e =
    let step : Log → Machine =
      λ k. bwrite (k.block tail) (copy_block (k.block tail) (k.start + tail + 1) m) in
    ap (λ k. install_loop left (tail + 1) (step k)) e
    ∙ install_loop-copies left (tail + 1) (step l) l (bwrite-log _ _ ∙ e)

pub write_loop-copies :
    (left tail : ℕ) (m : Machine) (l : Log)
    → m.log ≡ l
    → write_loop left tail m ≡ copies (λ i. l.start + i + 1) l.block left tail m
unfolding write_loop copies
write_loop-copies zero tail m l e = refl
write_loop-copies (suc left) tail m l e =
    let step : Log → Machine =
      λ k. bwrite (k.start + tail + 1) (copy_block (k.start + tail + 1) (k.block tail) m) in
    ap (λ k. write_loop left (tail + 1) (step k)) e
    ∙ write_loop-copies left (tail + 1) (step l) l (bwrite-log _ _ ∙ e)

pub copies-log :
    (to from : ℕ → ℕ) (left tail : ℕ) (m : Machine) → (copies to from left tail m).log ≡ m.log
unfolding copies
copies-log to from zero tail m = refl
copies-log to from (suc left) tail m = copies-log to from left (tail + 1) _ ∙ bwrite-log _ _

pub copies-power :
    (to from : ℕ → ℕ) (left tail : ℕ) (m : Machine)
    → (copies to from left tail m).power ≡ m.power - left
unfolding copies
copies-power to from zero tail m = omega arith
copies-power to from (suc left) tail m =
    let m' = copy_block (to tail) (from tail) m in
    let step : (bwrite (to tail) m').power ≡ m.power - 1 = bwrite-power (to tail) m' in
    ground (arith, copies-power to from left (tail + 1) (bwrite (to tail) m'), step)

module _ (to from : ℕ → ℕ) (n : ℕ) (v : ℕ → Block)
    (apart : (i j : ℕ) → i < n → j < n → from i ≢ to j) where
  -- What is to be copied, and what has been, before round `tail`.
  abbrev pub Sources : Machine → Type 0
  Sources m = (i : ℕ) → i < n → m.mem (from i) ≡ v (to i)

  Sources-step :
      (tail : ℕ)
      → tail < n
      → (m : Machine) → Sources m
      → Sources (bwrite (to tail) (copy_block (to tail) (from tail) m))
  Sources-step tail h m s i lt =
      ap (λ f. f (from i)) (bwrite-mem _ _) ∙ ground (arith, apart i tail lt h, s i lt)

  abbrev pub Copied : ℕ → Machine → Type 0
  Copied tail m = (i : ℕ) → i < tail → m.mem (to i) ≡ v (to i)

  Copied-step :
      (tail : ℕ)
      → tail < n
      → (m : Machine) → Sources m
      → Copied tail m
      → Copied (tail + 1) (bwrite (to tail) (copy_block (to tail) (from tail) m))
  Copied-step tail h m s c i lt =
      let before : i ≢ tail → i < tail = λ ne. omega arith in
      let same : to i ≡ to tail → m.mem (from tail) ≡ v (to i) = λ e. s tail h ∙ ap v (sym e) in
      let same_i : i ≡ tail → to i ≡ to tail = λ e. ap to e in
      let old : i < tail → m.mem (to i) ≡ v (to i) = c i in
      ap (λ f. f (to i)) (bwrite-mem _ _) ∙ ground (arith, same, same_i, old, before)

  pub copies_mem :
      (left tail : ℕ)
      → tail + left ≡ n
      → (m : Machine) → Sources m
      → Copied tail m
      → Copied n (copies to from left tail m)
  unfolding copies
  copies_mem zero tail e m s c = subst (λ k. Copied k m) (omega arith) c
  copies_mem (suc left) tail e m s c =
      let h : tail < n = omega arith in
      copies_mem left (tail + 1) (omega arith) _ (Sources-step tail h m s)
        (Copied-step tail h m s c)

  -- Every block holds what it held before, or the copy.
  pub copies_disk :
      (P : ℕ → Block → Type 0)
      → ((i : ℕ) → i < n → P (to i) (v (to i)))
      → (left tail : ℕ) → tail + left ≡ n
      → (m : Machine) → Sources m
      → ((b : ℕ) → P b (m.disk b))
      → (b : ℕ) → P b ((copies to from left tail m).disk b)
  unfolding copies
  copies_disk P put zero tail e m s p = p
  copies_disk P put (suc left) tail e m s p =
      let h : tail < n = omega arith in
      let m' = copy_block (to tail) (from tail) m in
      let put' : P (to tail) (m'.mem (to tail)) =
        subst (P (to tail)) (sym (ground (arith, s tail h))) (put tail h) in
      copies_disk P put left (tail + 1) (omega arith) _ (Sources-step tail h m s)
        (bwrite-disk P (to tail) m' put' p)

  abbrev pub Written : ℕ → Machine → Type 0
  Written tail m = (i : ℕ) → i < tail → m.disk (to i) ≡ v (to i)

  Written-step :
      (tail : ℕ)
      → tail < n
      → (m : Machine) → 0 < m.power
      → Sources m
      → Written tail m
      → Written (tail + 1) (bwrite (to tail) (copy_block (to tail) (from tail) m))
  Written-step tail h m on s c i lt =
      let before : i ≢ tail → i < tail = λ ne. omega arith in
      let same : to i ≡ to tail → m.mem (from tail) ≡ v (to i) = λ e. s tail h ∙ ap v (sym e) in
      let same_i : i ≡ tail → to i ≡ to tail = λ e. ap to e in
      let old : i < tail → m.disk (to i) ≡ v (to i) = c i in
      ap (λ f. f (to i)) (bwrite-on _ _ on) ∙ ground (arith, same, same_i, old, before)

  -- With enough power all copies reach the disk.
  pub copies_done :
      (left tail : ℕ)
      → tail + left ≡ n
      → (m : Machine) → left ≤ m.power
      → Sources m
      → Written tail m
      → Written n (copies to from left tail m)
  unfolding copies
  copies_done zero tail e m on s c = subst (λ k. Written k m) (omega arith) c
  copies_done (suc left) tail e m on s c =
      let h : tail < n = omega arith in
      let m' = copy_block (to tail) (from tail) m in
      let step : (bwrite (to tail) m').power ≡ m.power - 1 = bwrite-power (to tail) m' in
      copies_done left (tail + 1) (omega arith) (bwrite (to tail) m') (ground (arith, step))
        (Sources-step tail h m s) (Written-step tail h m (omega arith) s c)

pub copies-off :
    (to from : ℕ → ℕ) (left tail : ℕ) (m : Machine)
    → m.power ≡ 0
    → (copies to from left tail m).disk ≡ m.disk
unfolding copies
copies-off to from zero tail m off = refl
copies-off to from (suc left) tail m off =
    let m' = copy_block (to tail) (from tail) m in
    let step : (bwrite (to tail) m').power ≡ m.power - 1 = bwrite-power (to tail) m' in
    copies-off to from left (tail + 1) (bwrite (to tail) m') (omega arith)
    ∙ bwrite-off (to tail) m' off
