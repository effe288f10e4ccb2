-- ===== src/Symbols/Threads.antt =====
-- `internalize` called by many threads at once (src/lib/symbol_server.cpp). It looks the text up
-- under the shared lock, gives that lock up, and takes the exclusive one to look again and insert;
-- other threads may run in between.
use fcgiserver.Prelude.{
  ℕ, ◌^◌, ◌<◌, ◌≡◌, ◌↔◌, refl, [], ◌∷◌, Option, none, some, Bytes, length, ◌==◌, if◌then◌else◌,
  arith, Bool-cases, Option-cases, inl, inr,
}
use fcgiserver.Symbols.{Symbol, SymbolServer, lookup, empty_server, internalize_locked, internalize}
use fcgiserver.Symbols.Table.{IsConsistent, empty_server-IsConsistent}
use fcgiserver.Symbols.Interning.{internalize_locked-Learns, IsInterned, lookup-IsInterned}

-- A thread has not called, has found nothing under the shared lock, or has its symbol.
pub data Thread : Type 0 where
  idle : Thread
  missed : Bytes → Thread
  interned : Bytes → Symbol → Thread

abbrev look_result : Bytes → Option Symbol → Thread
look_result str none = missed str
look_result str (some id) = interned str id

-- `internalize` up to the end of the shared lock.
unfoldable pub look : Bytes → SymbolServer → Thread
look [] s = interned [] 0
look (c ∷ str) s = look_result (c ∷ str) (lookup (c ∷ str) s.index)

pub record World : Type 0 where
  pub server : SymbolServer
  pub threads : ℕ → Thread

abbrev pub set_thread : ℕ → Thread → World → World
set_thread t state w = record w { threads = λ u. if u == t then state else w.threads u }

-- `internalize` from the exclusive lock on.
abbrev pub insert : ℕ → Bytes → World → World
insert t str w =
    let (id, server') = internalize_locked str w.server in
    set_thread t (interned str id) (record w { server = server' })

pub data Step (w : World) : World → Type 0 where
  looks : (t : ℕ) (str : Bytes) → Step w (set_thread t (look str w.server) w)
  inserts :
      (t : ℕ) (str : Bytes)
      → w.threads t ≡ missed str
      → length w.server.strings < 2 ^ 32
      → Step w (insert t str w)

pub data Reach (w : World) : World → Type 0 where
  here : Reach w w
  next : {u v : World} → Reach w u → Step u v → Reach w v

abbrev pub initial : World
initial = record { server = empty_server; threads = λ _. idle }

-- A symbol that a thread was given is that of its text.
abbrev Knows : SymbolServer → Thread → Type 0
Knows s idle = Unit
Knows s (missed str) = Unit
Knows s (interned str id) = lookup str s.index ≡ some id

record Inv (w : World) : Type 0 where
  consistent : IsConsistent w.server
  known : (t : ℕ) → Knows w.server (w.threads t)

look-Knows : (str : Bytes) (s : SymbolServer) → IsConsistent s → Knows s (look str s)
unfolding look
look-Knows [] s v = (v.agrees [] 0).1 v.zero_empty
look-Knows (c ∷ str) s v = elim (Option-cases (lookup (c ∷ str) s.index)) [
  | inl new ↦ rw new tt
  | inr (id, old) ↦ rw old old
]

set_thread-Inv :
    (t : ℕ) (state : Thread) (w : World) → Inv w → Knows w.server state → Inv (set_thread t state w)
set_thread-Inv t state w v k = record {
  consistent = v.consistent;
  known =
      λ u. elim (Bool-cases (u == t)) [ inl same ↦ rw same k | inr other ↦ rw other (v.known u) ];
}

Knows-kept :
    (s s' : SymbolServer) (state : Thread)
    → ((key : Bytes) (old : Symbol)
        → lookup key s.index ≡ some old
        → lookup key s'.index ≡ some old)
    → Knows s state
    → Knows s' state
Knows-kept s s' idle kept k = tt
Knows-kept s s' (missed str) kept k = tt
Knows-kept s s' (interned str id) kept k = kept str id k

Step-Inv : {w w' : World} → Step w w' → Inv w → Inv w'
Step-Inv {w} (looks t str) v =
    set_thread-Inv t (look str w.server) w v (look-Knows str w.server v.consistent)
Step-Inv {w} (inserts t str _ room) v =
    let l = internalize_locked-Learns str w.server v.consistent room in
    let server' = (internalize_locked str w.server).1 in
    set_thread-Inv t (interned str (internalize_locked str w.server).0)
      (record w { server = server' })
      (record {
        consistent = l.consistent;
        known = λ u. Knows-kept w.server server' (w.threads u) l.kept (v.known u);
      })
      l.found

initial-Inv : Inv initial
initial-Inv = record { consistent = empty_server-IsConsistent; known = λ t. tt }

Reach-Inv : {w w' : World} → Inv w → Reach w w' → Inv w'
Reach-Inv v here = v
Reach-Inv v (next r s) = Step-Inv s (Reach-Inv v r)

interned-lookup :
    {w : World} (t : ℕ) (str : Bytes) (id : Symbol)
    → Inv w
    → w.threads t ≡ interned str id
    → lookup str w.server.index ≡ some id
interned-lookup t str id v e = rw e at (v.known t)

-- However the calls interleave while there are numbers left, a symbol that a thread was given stands
-- for its text in the table.
pub Reach-IsInterned :
    {w : World} (t : ℕ) (str : Bytes) (id : Symbol)
    → Reach initial w
    → w.threads t ≡ interned str id
    → IsInterned str id w.server
Reach-IsInterned {w} t str id r e =
    let v = Reach-Inv initial-Inv r in
    lookup-IsInterned str w.server id v.consistent (interned-lookup t str id v e)

-- However the calls interleave while there are numbers left, two threads have the same symbol exactly
-- if they interned the same text.
pub Reach-same_symbol :
    {w : World} (t u : ℕ) (a b : Bytes) (i j : Symbol)
    → Reach initial w
    → w.threads t ≡ interned a i
    → w.threads u ≡ interned b j
    → (i ≡ j) ↔ (a ≡ b)
Reach-same_symbol {w} t u a b i j r e f =
    let v = Reach-Inv initial-Inv r in
    let at_a = interned-lookup t a i v e in
    let at_b = interned-lookup u b j v f in
    let text_a = (v.consistent.agrees a i).0 at_a in
    let text_b = (v.consistent.agrees b j).0 at_b in
    (λ same. ground (arith, rw (← same) at text_b), λ same. ground (arith, rw (← same) at at_b))

abbrev finish : Thread → SymbolServer → Symbol × SymbolServer
finish idle s = (0, s)
finish (missed str) s = internalize_locked str s
finish (interned str id) s = (id, s)

-- With no other thread in between, the two parts are `internalize`.
pub internalize-look : (str : Bytes) (s : SymbolServer) → internalize str s ≡ finish (look str s) s
unfolding internalize look
internalize-look [] s = refl
internalize-look (c ∷ str) s = elim (Option-cases (lookup (c ∷ str) s.index)) [
  | inl new ↦ rw (new, internalize)
  | inr (id, old) ↦ rw (old, internalize)
]
