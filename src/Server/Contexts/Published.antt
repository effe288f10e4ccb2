-- ===== src/Server/Contexts/Published.antt =====
-- Which global contexts the requests of a server see (src/lib/server.cpp).
use fcgiserver.Prelude.{
  ℕ, zero, suc, ◌≡◌, refl, Bool, true, false, List, [], ◌∷◌, Option, some, get_elem?, ◌==◌, if_both,
  arith,
}
use fcgiserver.Server.Contexts.{
  Serving, idle, serving, Contexts, all_idle, change_thread, replaced_of, begin_request,
  replace_context, end_request, set_context,
}

-- The contexts that an end of a request publishes, newest first.
abbrev pub published_by : {U : Type 0} → Bool → Option U → List (Option U) → List (Option U)
published_by true context published = context ∷ published
published_by false context published = published

-- What the threads of a server and its program can reach, with the contexts that were published
-- until then, newest first.
pub data Reach (U : Type 0) : Contexts U → List (Option U) → Type 0 where
  starts : (context : Option U) → Reach U (all_idle context) (context ∷ [])
  begins :
      (i : ℕ) (replaced : Bool) {s : Contexts U} {published : List (Option U)}
      → Reach U s published
      → s.threads i ≡ idle replaced
      → Reach U (begin_request i s) published
  replaces :
      (i : ℕ) (context new_context : Option U) (replaced : Bool) {s : Contexts U}
      {published : List (Option U)}
      → Reach U s published
      → s.threads i ≡ serving context replaced
      → Reach U (replace_context i new_context s) published
  finishes :
      (i : ℕ) (context : Option U) (replaced : Bool) {s : Contexts U} {published : List (Option U)}
      → Reach U s published
      → s.threads i ≡ serving context replaced
      → Reach U (end_request i context replaced s) (published_by replaced context published)
  sets :
      (new_context : Option U) {s : Contexts U} {published : List (Option U)}
      → Reach U s published
      → Reach U (set_context new_context s) (new_context ∷ published)

module _ {U : Type 0} where
  -- The context is one of those that were published.
  abbrev pub IsAmong : Option U → List (Option U) → Type 0
  IsAmong context published = (k : ℕ) × (get_elem? published k ≡ some context)

  -- What a thread has of the contexts: between two requests it has nothing left to publish, and a
  -- request that did not replace its context has one that was published.
  abbrev pub HasPublished : List (Option U) → Serving U → Type 0
  HasPublished published (idle replaced) = replaced ≡ false
  HasPublished published (serving context false) = IsAmong context published
  HasPublished published (serving context true) = Unit

  abbrev IsNewest : Option U → List (Option U) → Type 0
  IsNewest context published = get_elem? published 0 ≡ some context

  pub record IsSettled (s : Contexts U) (published : List (Option U)) : Type 0 where
    pub newest : IsNewest s.global_context published
    pub seen : (i : ℕ) → HasPublished published (s.threads i)

  HasPublished-more :
      (context : Option U) (published : List (Option U)) (t : Serving U)
      → HasPublished published t
      → HasPublished (context ∷ published) t
  HasPublished-more context published (idle replaced) h = h
  HasPublished-more context published (serving seen true) h = tt
  HasPublished-more context published (serving seen false) (k, h) = (suc k, ground arith)

  changed :
      (i j : ℕ) (new : Serving U) (threads : ℕ → Serving U) (published : List (Option U))
      → HasPublished published new
      → HasPublished published (threads j)
      → HasPublished published (change_thread i new threads j)
  unfolding change_thread
  changed i j new threads published h old =
      if_both (HasPublished published) (j == i) new (threads j) h old

  IsSettled-end :
      (i : ℕ) (context : Option U) (replaced : Bool) (s : Contexts U) (published : List (Option U))
      → IsSettled s published
      → IsSettled (end_request i context replaced s) (published_by replaced context published)
  IsSettled-end i context false s published h = record {
    newest = h.newest;
    seen = λ j. changed i j (idle false) s.threads published refl (h.seen j);
  }
  IsSettled-end i context true s published h = record {
    newest = refl;
    seen = λ j.
        changed i j (idle false) s.threads (context ∷ published) refl
          (HasPublished-more context published (s.threads j) (h.seen j));
  }

  Reach-IsSettled :
      {s : Contexts U} {published : List (Option U)} → Reach U s published → IsSettled s published
  Reach-IsSettled (starts context) = record { newest = refl; seen = λ i. refl }
  Reach-IsSettled (begins i replaced {s = s} {published = published} r free) =
      let h = Reach-IsSettled r in
      let reset : replaced ≡ false = rw free at (h.seen i) in
      let new : HasPublished published (serving s.global_context (replaced_of (s.threads i))) =
        rw (free, reset) (zero, h.newest) in
      record {
        newest = h.newest;
        seen = λ j.
            changed i j (serving s.global_context (replaced_of (s.threads i))) s.threads published
              new (h.seen j);
      }
  Reach-IsSettled (replaces i context new_context replaced {s = s} {published = published} r busy) =
      let h = Reach-IsSettled r in
      record {
        newest = h.newest;
        seen = λ j. changed i j (serving new_context true) s.threads published tt (h.seen j);
      }
  Reach-IsSettled (finishes i context replaced {s = s} {published = published} r busy) =
      IsSettled-end i context replaced s published (Reach-IsSettled r)
  Reach-IsSettled (sets new_context {s = s} {published = published} r) =
      let h = Reach-IsSettled r in
      record {
        newest = refl;
        seen = λ j. HasPublished-more new_context published (s.threads j) (h.seen j);
      }

  -- However the requests of a server are interleaved: its global context is the one that was published
  -- last, by a request that ended and had replaced it, by set_global_context or at the start; a request
  -- that did not replace its global context has one that was published, so that it never sees what
  -- another request replaced and did not publish yet; and a thread between two requests has
  -- nothing left to publish.
  pub Reach-HasPublished :
      (s : Contexts U) (published : List (Option U))
      → Reach U s published
      → (get_elem? published 0 ≡ some s.global_context)
        × ((i : ℕ) → HasPublished published (s.threads i))
  Reach-HasPublished s published r = let h = Reach-IsSettled r in (h.newest, h.seen)
