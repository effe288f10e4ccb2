-- ===== src/Server/Pool/Threads.antt =====
-- What is asked of the threads of a server (src/lib/server.cpp), as lists of their work.
use fcgiserver.Prelude.{
  ℕ, zero, suc, ◌+◌, ◌%◌, ◌^◌, ◌<◌, ◌≡◌, ◌∙◌, sym, ap, refl, Bool, true, some, List, [], ◌∷◌, ◌++◌,
  if◌then◌else◌, All, All-append, Bool-cases, inl, inr, arith,
}
use fcgiserver.Server.Pool.{
  Work, ticker, worker, Thread, Server, all_stop, kill_threads, killed_threads, finalize, finalized,
  thread, Event, started, killed, joined, add_workers, add_ticker, each_joinable,
}

-- What was started, in order, by these events, and what was joined.
abbrev pub starts : List Event → List Work
starts [] = []
starts (started work ∷ events) = work ∷ starts events
starts (_ ∷ events) = starts events

abbrev pub joins : List Event → List Work
joins [] = []
joins (joined work ∷ events) = work ∷ joins events
joins (_ ∷ events) = joins events

-- The work of the threads that can be joined.
abbrev pub alive : List Thread → List Work
alive [] = []
alive (t ∷ threads) = if t.joinable then t.work ∷ alive threads else alive threads

-- The ids of the workers.
abbrev pub ids : List Work → List ℕ
ids [] = []
ids (ticker ∷ works) = ids works
ids (worker id ∷ works) = id ∷ ids works

-- The numbers behind the first, in order.
abbrev pub numbers : ℕ → ℕ → List ℕ
numbers first zero = []
numbers first (suc count) = (first + 1) ∷ numbers (first + 1) count

pub starts-append : (a b : List Event) → starts (a ++ b) ≡ starts a ++ starts b
starts-append [] b = refl
starts-append (started work ∷ a) b = ap (◌∷◌ work) (starts-append a b)
starts-append (_ ∷ a) b = starts-append a b

pub joins-append : (a b : List Event) → joins (a ++ b) ≡ joins a ++ joins b
joins-append [] b = refl
joins-append (joined work ∷ a) b = ap (◌∷◌ work) (joins-append a b)
joins-append (_ ∷ a) b = joins-append a b

pub ids-append : (a b : List Work) → ids (a ++ b) ≡ ids a ++ ids b
ids-append [] b = refl
ids-append (ticker ∷ a) b = ids-append a b
ids-append (worker id ∷ a) b = ap (◌∷◌ id) (ids-append a b)

pub alive-append : (a b : List Thread) → alive (a ++ b) ≡ alive a ++ alive b
alive-append [] b = refl
alive-append (t ∷ a) b = elim (Bool-cases t.joinable) [
  | inl live ↦ rw live (ap (◌∷◌ t.work) (alive-append a b))
  | inr done ↦ rw done (alive-append a b)
]

-- Events of one kind for all threads.
module _ (f : List Event → List Work) (event : Work → Event) where
  each_joinable-alive :
      ((work : Work) (events : List Event) → f (event work ∷ events) ≡ work ∷ f events)
      → f [] ≡ []
      → (threads : List Thread) → f (each_joinable event threads) ≡ alive threads
  each_joinable-alive h nothing [] = nothing
  each_joinable-alive h nothing (t ∷ threads) = elim (Bool-cases t.joinable) [
    | inl live ↦ rw live (
        h t.work (each_joinable event threads)
        ∙ ap (◌∷◌ t.work) (each_joinable-alive h nothing threads))
    | inr done ↦ rw done (each_joinable-alive h nothing threads)
  ]

  each_joinable-nil :
      ((work : Work) (events : List Event) → f (event work ∷ events) ≡ f events)
      → f [] ≡ []
      → (threads : List Thread) → f (each_joinable event threads) ≡ []
  each_joinable-nil h nothing [] = nothing
  each_joinable-nil h nothing (t ∷ threads) = elim (Bool-cases t.joinable) [
    | inl live ↦
        rw live (h t.work (each_joinable event threads) ∙ each_joinable-nil h nothing threads)
    | inr done ↦ rw done (each_joinable-nil h nothing threads)
  ]

module _ (threads : List Thread) where
  pub starts-started : starts (each_joinable started threads) ≡ alive threads
  starts-started = each_joinable-alive starts started (λ w e. refl) refl threads

  pub joins-started : joins (each_joinable started threads) ≡ []
  joins-started = each_joinable-nil joins started (λ w e. refl) refl threads

  -- What `kill_threads` asks for.
  pub starts_killed : starts (each_joinable killed threads ++ each_joinable joined threads) ≡ []
  starts_killed = rw (
    starts-append (each_joinable killed threads) (each_joinable joined threads),
    each_joinable-nil starts killed (λ w e. refl) refl threads,
    each_joinable-nil starts joined (λ w e. refl) refl threads,
  )

  pub joins_killed :
      joins (each_joinable killed threads ++ each_joinable joined threads) ≡ alive threads
  joins_killed = rw (
    joins-append (each_joinable killed threads) (each_joinable joined threads),
    each_joinable-nil joins killed (λ w e. refl) refl threads,
    each_joinable-alive joins joined (λ w e. refl) refl threads,
  )

abbrev pub IsWorker : Thread → Type 0
IsWorker t = (id : ℕ) × (t ≡ thread (worker id))

-- The first thread, if there is one, is the maintenance thread, and the others are workers.
abbrev pub HasTicker : List Thread → Type 0
HasTicker [] = Unit
HasTicker (t ∷ threads) = (t ≡ thread ticker) × All IsWorker threads

-- What the loop of `add_threads` adds.
pub record Adds (count last : ℕ) : Type 0 where
  pub workers : All IsWorker (add_workers count last).0
  pub last_is : (add_workers count last).1 ≡ last + count
  pub ids_are : ids (alive (add_workers count last).0) ≡ numbers last count

pub add_workers-Adds : (count last : ℕ) → last + count < 2 ^ 64 → Adds count last
unfolding add_workers
add_workers-Adds zero last h = record { workers = tt; last_is = omega arith; ids_are = refl }
add_workers-Adds (suc count) last h =
    let next : (last + 1) % 2 ^ 64 ≡ last + 1 = omega arith in
    let more = add_workers-Adds count (last + 1) (omega arith) in
    record {
      workers = rw next ((last + 1, refl), more.workers);
      last_is = rw next (omega (arith, more.last_is));
      ids_are = rw next (ap (◌∷◌ (last + 1)) more.ids_are);
    }

numbers-append : (first a b : ℕ) → numbers first a ++ numbers (first + a) b ≡ numbers first (a + b)
numbers-append first zero b =
    let here : first + 0 ≡ first = omega arith in
    let same : 0 + b ≡ b = omega arith in rw (here, same)
numbers-append first (suc a) b =
    let shift : first + suc a ≡ first + 1 + a = omega arith in
    let one_more : suc a + b ≡ suc (a + b) = omega arith in
    rw (one_more, shift) (ap (◌∷◌ (first + 1)) (numbers-append (first + 1) a b))

pub numbers_from : (a b : ℕ) → numbers 0 a ++ numbers a b ≡ numbers 0 (a + b)
numbers_from a b =
    let start : 0 + a ≡ a = omega arith in
    ap (λ k. numbers 0 a ++ numbers k b) (sym start) ∙ numbers-append 0 a b

pub add_ticker-HasTicker :
    (threads workers : List Thread)
    → HasTicker threads
    → All IsWorker workers
    → HasTicker (threads ++ (add_ticker threads ++ workers))
add_ticker-HasTicker [] workers h ws = (refl, ws)
add_ticker-HasTicker (t ∷ threads) workers (first, rest) ws =
    (first, All-append IsWorker threads workers rest ws)

pub ids-add_ticker : (threads : List Thread) → ids (alive (add_ticker threads)) ≡ []
ids-add_ticker [] = refl
ids-add_ticker (t ∷ threads) = refl

-- If every thread ends, each `join` returns.
pub all_stop_all :
    (stops : Work → Bool) (threads : List Thread)
    → ((work : Work) → stops work ≡ true)
    → all_stop stops threads ≡ true
all_stop_all stops [] h = refl
all_stop_all stops (t ∷ threads) h = elim (Bool-cases t.joinable) [
  | inl live ↦ rw (live, h t.work) (all_stop_all stops threads h)
  | inr done ↦ rw done (all_stop_all stops threads h)
]

module _ {D L U V : Type 0} (stops : Work → Bool) (s : Server D L U V)
    (h : (work : Work) → stops work ≡ true) where
  pub kill_threads-killed_threads : kill_threads stops s ≡ some (killed_threads s)
  unfolding kill_threads
  kill_threads-killed_threads = rw (all_stop_all stops s.threads h)

  pub finalize-finalized : finalize stops s ≡ some (finalized s)
  unfolding finalize finalized
  finalize-finalized = rw (kill_threads-killed_threads)
