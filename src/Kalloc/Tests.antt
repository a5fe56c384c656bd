-- ===== src/Kalloc/Tests.antt =====
-- The allocator on two pages.
use kernel_tracing.Prelude.{ℕ, ◌+◌, ◌≡◌, refl, ◌≢◌, true, false, none, [], ◌∷◌, arith, ok}
use kernel_tracing.Prelude.Int.{pos}
use kernel_tracing.Str.{c_string}
use kernel_tracing.Ktrace.{TraceBuffer}
use kernel_tracing.Ktrace.Queue.{IsSound, pending}
use kernel_tracing.Kalloc.{Memory, Context, kernbase, kfree, kalloc, kinit1, bad_page}
use kernel_tracing.Kalloc.Boot.{kinit1-Chain}
use kernel_tracing.Kalloc.Pages.{Chain, Quiet, reported, kfree-Chain, kalloc-Chain}

abbrev quiet_trace : TraceBuffer
quiet_trace = record {
  lock = false;
  enabled = 1;
  seq = 0;
  readseq = 0;
  overwritten = 0;
  events = λ _. record {
    seq = 0;
    ticks = 0;
    type = pos 0;
    pid = pos 0;
    arg0 = pos 0;
    arg1 = pos 0;
    arg2 = pos 0;
    comm = λ _. 0;
    event = λ _. 0;
    overwritten = 0;
  };
}

abbrev first_page : ℕ
first_page = kernbase + 4194304

abbrev second_page : ℕ
second_page = kernbase + 4198400

abbrev running : Context
running = record { kernel_end = kernbase + 2097152; ticks = 5; proc = none }

-- The second page is free.
abbrev one_free : Memory
one_free = record {
  lock = false;
  use_lock = true;
  freelist = second_page;
  next = λ _. 0;
  trace = quiet_trace;
}

quiet_trace-IsSound : IsSound quiet_trace
quiet_trace-IsSound = record {
  seq_fits = omega arith;
  readseq_fits = omega arith;
  bounded = omega arith;
  stamped = refl;
}

one_free-Quiet : Quiet one_free
one_free-Quiet = record {
  unlocked = refl;
  trace_free = refl;
  traced = omega arith;
  sound = quiet_trace-IsSound;
}

first_page_good : bad_page first_page running ≡ false
unfolding bad_page
first_page_good = refl

kfree-Chain_example :
    (m' : Memory) × (kfree first_page running one_free ≡ ok m')
    × Chain m'.next m'.freelist (first_page ∷ second_page ∷ [])
    × (m'.lock ≡ false)
    × (pending m'.trace ≡ reported (c_string "kfree") first_page running one_free)
kfree-Chain_example =
    kfree-Chain first_page running one_free (second_page ∷ []) first_page_good (omega arith)
      ((λ e. ground (arith, e)), refl) (refl, omega arith, refl) one_free-Quiet

kalloc-Chain_example :
    (m' : Memory) × (kalloc running one_free ≡ ok (second_page, m'))
    × (second_page ≢ 0)
    × Chain m'.next m'.freelist []
    × (m'.lock ≡ false)
    × (pending m'.trace ≡ reported (c_string "kalloc") second_page running one_free)
kalloc-Chain_example =
    kalloc-Chain second_page running one_free [] (refl, omega arith, refl) one_free-Quiet

kinit1-Chain_example :
    (m' : Memory) × (kinit1 (kernbase + 2097153) (kernbase + 2109440) running one_free ≡ ok m')
    × Chain m'.next m'.freelist ((kernbase + 2105344) ∷ (kernbase + 2101248) ∷ [])
    × (m'.use_lock ≡ false)
kinit1-Chain_example =
    kinit1-Chain (kernbase + 2097153) (kernbase + 2109440) running one_free (omega arith)
      (omega arith) (omega arith) (omega arith)
