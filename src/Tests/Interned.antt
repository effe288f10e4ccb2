-- ===== src/Tests/Interned.antt =====
-- Symbols of a few texts, and two threads that intern the same text.
use fcgiserver.Prelude.{true, ℕ, ◌≡◌, ◌↔◌, refl, some, Bytes, codes, length, arith}
use fcgiserver.Symbols.{
  Symbol, SymbolServer, lookup, empty_server, internalize, internalize_locked, compare_symbol,
  compare_text, resolve, startup, names,
}
use fcgiserver.Symbols.Table.{IsConsistent, empty_server-IsConsistent}
use fcgiserver.Symbols.Interning.{IsInterned, internalize-IsInterned, internalize_injective}
use fcgiserver.Symbols.Threads.{
  interned, missed, World, looks, inserts, Reach, here, next, initial, look, set_thread, insert,
  Reach-same_symbol,
}
use fcgiserver.Symbols.Operators.{less}

abbrev first_key : Bytes
first_key = codes "GET"

internalize-IsInterned_example :
    IsConsistent (internalize first_key empty_server).1
    × IsInterned first_key
        (internalize first_key empty_server).0
        (internalize first_key empty_server).1
internalize-IsInterned_example =
    internalize-IsInterned first_key empty_server empty_server-IsConsistent (omega arith)

one_string : length (internalize first_key empty_server).1.strings ≡ 2
unfolding internalize lookup
one_string = refl

internalize_injective_example :
    ((internalize first_key empty_server).0
      ≡ (internalize (codes "PUT") (internalize first_key empty_server).1).0)
    ↔ (first_key ≡ codes "PUT")
internalize_injective_example =
    internalize_injective first_key (codes "PUT") empty_server empty_server-IsConsistent
      (omega arith) (omega (arith, one_string))

get_found : lookup (codes "GET") startup.index ≡ some 16
unfolding lookup startup
get_found = refl

put_found : lookup (codes "PUT") startup.index ≡ some 17
unfolding lookup startup
put_found = refl

delete_found : lookup (codes "DELETE") startup.index ≡ some 22
unfolding lookup startup
delete_found = refl

delete_below_get : less 22 16 startup ≡ true
unfolding compare_symbol compare_text resolve startup
delete_below_get = refl

get_below_put : less 16 17 startup ≡ true
unfolding compare_symbol compare_text resolve startup
get_below_put = refl

-- Both threads look before either inserts.
abbrev both_missed : World
both_missed =
    set_thread 1 (look first_key initial.server)
      (set_thread 0 (look first_key initial.server) initial)

abbrev both_interned : World
both_interned = insert 1 first_key (insert 0 first_key both_missed)

missed_first : both_missed.threads 0 ≡ missed first_key
unfolding look lookup
missed_first = refl

missed_second : (insert 0 first_key both_missed).threads 1 ≡ missed first_key
unfolding look lookup
missed_second = refl

both_room : length (insert 0 first_key both_missed).server.strings ≡ 2
unfolding internalize_locked lookup
both_room = refl

both_reached : Reach initial both_interned
both_reached =
    next
      (next (next (next here (looks 0 first_key)) (looks 1 first_key))
        (inserts 0 first_key missed_first (omega arith)))
      (inserts 1 first_key missed_second (omega (arith, both_room)))

first_interned : both_interned.threads 0 ≡ interned first_key 1
unfolding internalize_locked lookup
first_interned = refl

second_interned : both_interned.threads 1 ≡ interned first_key 1
unfolding internalize_locked lookup fcgiserver.Symbols.assign
second_interned = refl

Reach-same_symbol_example : (◌≡◌ {A = ℕ} 1 1) ↔ (first_key ≡ first_key)
Reach-same_symbol_example =
    Reach-same_symbol 0 1 first_key first_key 1 1 both_reached first_interned second_interned
