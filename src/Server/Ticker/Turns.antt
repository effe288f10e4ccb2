-- ===== src/Server/Ticker/Turns.antt =====
-- The order in which the threads of a server are signalled (src/lib/server.cpp).
use native.Mathlib.Nat.{mod-eq_of_lt, mod-add-mod, mod_self, mod-lt, add-zero, add-mod_left}
use fcgiserver.Prelude.{
  ℕ, zero, suc, ◌+◌, ◌%◌, ◌^◌, ◌≤◌, ◌<◌, ◌≡◌, ◌∙◌, refl, List, [], ◌∷◌, none, some, true, All,
  get_elem?, ltb, if◌then◌else◌, arith, Bool-cases, inl, inr,
}
use fcgiserver.Server.Ticker.{
  TickRound, shut_down, lock_failed, locked, no_index, next_index, signals, thread_tick_function,
}

-- The thread keeps running, and the server keeps this number of threads.
abbrev pub IsSteady : ℕ → TickRound → Type 0
IsSteady num_threads shut_down = ⊥
IsSteady num_threads lock_failed = Unit
IsSteady num_threads (locked n) = n ≡ num_threads

-- The rounds in which the lock was free.
abbrev pub locks : List TickRound → ℕ
locks [] = 0
locks (locked n ∷ rounds) = suc (locks rounds)
locks (_ ∷ rounds) = locks rounds

module _ (workers : ℕ) (some_worker : 0 < workers) (fits : workers + 1 < 2 ^ 64) where
  next_index_turn : (t : ℕ) → t ≤ workers → next_index (workers + 1) t ≡ 1 + t % workers
  unfolding next_index
  next_index_turn t le = elim (Bool-cases (ltb t workers)) [
    | inl less ↦
        let wrapped : (t + 1) % 2 ^ 64 ≡ t + 1 = omega arith in
        let small : (t + 1) % (workers + 1) ≡ t + 1 = mod-eq_of_lt (ground arith) in
        let same : t % workers ≡ t = mod-eq_of_lt (ground arith) in
        rw (wrapped, small, same) (ground arith)
    | inr last ↦
        let wrapped : (t + 1) % 2 ^ 64 ≡ t + 1 = omega arith in
        let t_is : t ≡ workers = ground arith in
        rw (wrapped, t_is, mod_self (workers + 1), mod_self workers)
  ]

  next_index_start : next_index (workers + 1) no_index ≡ next_index (workers + 1) workers
  unfolding next_index
  next_index_start =
      let wrapped : (workers + 1) % 2 ^ 64 ≡ workers + 1 = omega arith in
      let none_left : 0 % (workers + 1) ≡ 0 = mod-eq_of_lt (omega arith) in
      rw (wrapped, mod_self (workers + 1), none_left)

  turn_shift : (t j : ℕ) → (1 + t % workers + j) % workers ≡ (t + suc j) % workers
  turn_shift t j =
      let left : 1 + t % workers + j ≡ t % workers + suc j = omega arith in
      rw left (mod-add-mod t workers (suc j))

  in_range : (t : ℕ) → ltb (1 + t % workers) (workers + 1) ≡ true
  in_range t = ground (arith, mod-lt t some_worker)

  -- One round in which the lock is free.
  signals_locked :
      (t : ℕ) (rounds : List TickRound)
      → t ≤ workers
      → signals t (locked (workers + 1) ∷ rounds)
        ≡ (1 + t % workers) ∷ signals (1 + t % workers) rounds
  unfolding signals
  signals_locked t rounds le = rw (next_index_turn t le, in_range t)

  signals_skip :
      (t : ℕ) (rounds : List TickRound) → signals t (lock_failed ∷ rounds) ≡ signals t rounds
  unfolding signals
  signals_skip t rounds = refl

  signals_from :
      (t : ℕ) (rounds : List TickRound) (j : ℕ)
      → t ≤ workers
      → All (IsSteady (workers + 1)) rounds
      → get_elem? (signals t rounds) j
        ≡ (if ltb j (locks rounds) then some (1 + (t + j) % workers) else none)
  signals_from t [] j le h = unfold signals in ground arith
  signals_from t (shut_down ∷ rounds) j le (h, _) = absurd h
  signals_from t (lock_failed ∷ rounds) j le (_, hs) =
      rw (signals_skip t rounds) (signals_from t rounds j le hs)
  signals_from t (locked n ∷ rounds) zero le (h, hs) =
      rw (h, signals_locked t rounds le) (rw (add-zero t) (ground arith))
  signals_from t (locked n ∷ rounds) (suc j) le (h, hs) =
      let t' = 1 + t % workers in
      let both : ltb (suc j) (suc (locks rounds)) ≡ ltb j (locks rounds) = ground arith in
      rw (h, signals_locked t rounds le)
        (signals_from t' rounds j (ground (arith, mod-lt t some_worker)) hs
          ∙ rw (turn_shift t j, both))

  signals_start :
      (rounds : List TickRound)
      → All (IsSteady (workers + 1)) rounds
      → signals no_index rounds ≡ signals workers rounds
  unfolding signals
  signals_start [] h = refl
  signals_start (shut_down ∷ rounds) (h, _) = absurd h
  signals_start (lock_failed ∷ rounds) (_, hs) = signals_start rounds hs
  signals_start (locked n ∷ rounds) (h, _) = rw h (rw next_index_start)

-- While the server keeps its number of threads, at least two and below 2 ^ 64, the threads behind the first are
-- signalled in turn, one in each round in which the lock is free, starting with the second: so in
-- as many such rounds as there are threads behind the first, each is signalled once.
pub thread_tick_function_turns :
    (workers : ℕ) (rounds : List TickRound) (j : ℕ)
    → 0 < workers
    → workers + 1 < 2 ^ 64
    → All (IsSteady (workers + 1)) rounds
    → get_elem? (thread_tick_function rounds) j
      ≡ (if ltb j (locks rounds) then some (1 + j % workers) else none)
unfolding thread_tick_function
thread_tick_function_turns workers rounds j some_worker fits h =
    rw (signals_start workers some_worker fits rounds h) (
      signals_from workers some_worker fits workers rounds j (omega arith) h
      ∙ rw (add-mod_left workers j))
