-- ===== src/Kalloc/Pages.antt =====
-- The free list as a list of pages, which kfree pushes on and kalloc takes from.
use kernel_tracing.Prelude.{
  ℕ, ◌≡◌, refl, sym, subst, ◌≢◌, inl, inr, false, List, [], ◌∷◌, ◌++◌, arith, ◌==◌, if◌then◌else◌,
  Bool-cases, update, newest, ok,
}
use kernel_tracing.Str.{Bytes, c_string}
use kernel_tracing.Ktrace.{TraceBuffer, TraceEvent}
use kernel_tracing.Ktrace.Queue.{IsSound, pending, added, traceevent-newest}
use kernel_tracing.Kalloc.{
  Memory, Context, junk, bad_page, page_event, lock_memory, unlock_memory, report, free_page, kfree,
  finish_kalloc, take_page, kalloc,
}

-- The pages on the list that starts at `head`.
abbrev pub Chain : (ℕ → ℕ) → ℕ → List ℕ → Type 0
Chain next head [] = head ≡ 0
Chain next head (p ∷ rest) = (head ≡ p) × (p ≢ 0) × Chain next (next p) rest

abbrev pub Without : ℕ → List ℕ → Type 0
Without v [] = v ≡ v
Without v (p ∷ rest) = (p ≢ v) × Without v rest

-- Nobody is inside the allocator or the trace buffer, and tracing is on.
pub record Quiet (m : Memory) : Type 0 where
  pub unlocked : m.lock ≡ false
  pub trace_free : m.trace.lock ≡ false
  pub traced : m.trace.enabled ≢ 0
  pub sound : IsSound m.trace

-- The unread events after a call of kfree or kalloc has dealt with page v.
abbrev pub reported : Bytes → ℕ → Context → Memory → List TraceEvent
reported name v c m =
    if m.use_lock
    then newest 128 (pending m.trace ++ added (page_event name v c) m.trace ∷ [])
    else pending m.trace

lock_memory_lem : (m : Memory) → m.lock ≡ false → lock_memory m ≡ ok m.use_lock
unfolding lock_memory
lock_memory_lem m free = elim (Bool-cases m.use_lock) [
  | inl e ↦ rw (e, free) refl
  | inr e ↦ rw (e, free) refl
]

unlock_memory_lem : (m : Memory) → m.lock ≡ m.use_lock → unlock_memory m ≡ ok false
unfolding unlock_memory
unlock_memory_lem m held = elim (Bool-cases m.use_lock) [
  | inl e ↦ rw (held, e) refl
  | inr e ↦ rw (held, e) refl
]

-- What report comes back with.
record Reported (name : Bytes) (v : ℕ) (c : Context) (m : Memory) : Type 0 where
  buffer : TraceBuffer
  runs : report name v c m ≡ ok buffer
  free : buffer.lock ≡ false
  sound : IsSound buffer
  events : pending buffer ≡ reported name v c m

report-Reported : (name : Bytes) (v : ℕ) (c : Context) (m : Memory) → Quiet m → Reported name v c m
unfolding report
report-Reported name v c m q = elim (Bool-cases m.use_lock) [
  | inl e ↦
      let t = traceevent-newest (page_event name v c) m.trace q.sound q.trace_free q.traced in
      record { buffer = t.0; runs = rw (e) t.1; free = t.3; sound = t.2; events = rw (e) t.4 }
  | inr e ↦ record {
    buffer = m.trace;
    runs = rw (e) refl;
    free = q.trace_free;
    sound = q.sound;
    events = rw (e) refl;
  }
]

-- A store at a page that is not on a list leaves the list.
pub Chain-update :
    (next : ℕ → ℕ) (v w head : ℕ) (pages : List ℕ)
    → Without v pages
    → Chain next head pages
    → Chain (update next v w) head pages
Chain-update next v w head [] fresh c = c
Chain-update next v w head (p ∷ rest) fresh c =
    let e : update next v w p ≡ next p = ground (arith, fresh.0) in
    (
      c.0,
      c.1,
      subst (λ h. Chain (update next v w) h rest) (sym e)
          (Chain-update next v w (next p) rest fresh.1 c.2),
    )

-- For a page that passes kfree's check, is not the null pointer and is not on the free list: with
-- the allocator and the trace buffer free and tracing on, kfree returns with the lock free and the
-- page in front of the list, and the event is in the trace if locks are in use.
pub kfree-Chain :
    (v : ℕ) (c : Context) (m : Memory) (pages : List ℕ)
    → bad_page v c ≡ false
    → v ≢ 0
    → Without v pages
    → Chain m.next m.freelist pages
    → Quiet m
    → (m' : Memory) × (kfree v c m ≡ ok m')
      × Chain m'.next m'.freelist (v ∷ pages)
      × (m'.lock ≡ false)
      × (pending m'.trace ≡ reported (c_string "kfree") v c m)
unfolding kfree free_page report
kfree-Chain v c m pages fine real fresh chain q =
    let junked = record m { next = update m.next v junk } in
    let linked : Memory = record junked {
      lock = m.use_lock;
      next = update (update m.next v junk) v m.freelist;
      freelist = v;
    } in
    let quiet : Quiet (record linked { lock = false }) = record {
      unlocked = refl;
      trace_free = q.trace_free;
      traced = q.traced;
      sound = q.sound;
    } in
    let r = report-Reported (c_string "kfree") v c (record linked { lock = false }) quiet in
    let next' : ℕ → ℕ = update (update m.next v junk) v m.freelist in
    let head : next' v ≡ m.freelist = ground arith in
    let left : Chain next' m.freelist pages =
      Chain-update (update m.next v junk) v m.freelist m.freelist pages fresh
        (Chain-update m.next v junk m.freelist pages fresh chain) in
    (
      record linked { lock = false; trace = r.buffer },
      rw (fine, lock_memory_lem junked q.unlocked, unlock_memory_lem linked refl, r.runs) refl,
      (refl, real, subst (λ h. Chain next' h pages) (sym head) left),
      refl,
      r.events,
    )

-- With the allocator and the trace buffer free and tracing on, and a free list of the page p and
-- others: kalloc returns p, which is not the null pointer, and comes back with the lock free and
-- the others on the list, and the event is in the trace if locks are in use.
pub kalloc-Chain :
    (p : ℕ) (c : Context) (m : Memory) (pages : List ℕ)
    → Chain m.next m.freelist (p ∷ pages)
    → Quiet m
    → (m' : Memory) × (kalloc c m ≡ ok (p, m'))
      × (p ≢ 0)
      × Chain m'.next m'.freelist pages
      × (m'.lock ≡ false)
      × (pending m'.trace ≡ reported (c_string "kalloc") p c m)
unfolding kalloc take_page finish_kalloc report
kalloc-Chain p c m pages chain q =
    let taken : Memory = record m { lock = m.use_lock; freelist = m.next p } in
    let quiet : Quiet (record taken { lock = false }) = record {
      unlocked = refl;
      trace_free = q.trace_free;
      traced = q.traced;
      sound = q.sound;
    } in
    let r = report-Reported (c_string "kalloc") p c (record taken { lock = false }) quiet in
    let e : m.freelist ≡ p = chain.0 in
    let real = chain.1 in
    let some_left : (p == 0) ≡ false = ground arith in
    (
      record taken { lock = false; trace = r.buffer },
      rw (lock_memory_lem m q.unlocked, e, some_left, unlock_memory_lem taken refl, r.runs) refl,
      chain.1,
      chain.2,
      refl,
      r.events,
    )
