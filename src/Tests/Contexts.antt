-- ===== src/Tests/Contexts.antt =====
-- The storage of contexts; the world counts addresses.
use gpsee.Base.{ℕ, ◌+◌, ◌≡◌, refl, true, [], ◌∷◌, some, none, arith}
use gpsee.ContextPrivate.{
  Entry, Private, Host, find_entry, get_context_private, set_context_callback, context_destroyed,
  find_or_add, add_entry, storage_of, notify,
}
use gpsee.ContextPrivate.Lookup.{IsDiscreet, get-get}
use gpsee.ContextPrivate.Destruction.{told, freed, context_destroyed-told}

abbrev host : Host ℕ
host = record {
  handle = λ w. (true, w);
  grow = λ w. (true, w);
  storage = λ size w. (w, w + size);
  free = λ p w. w + p;
  call = λ cb op s. record s { world = s.world + cb };
}

host-IsDiscreet : IsDiscreet host
host-IsDiscreet cb op s = refl

abbrev entry : Entry
entry = record { cx = 8; id = 5; cb = 3; storage = 90 }

abbrev before : Private ℕ
before = record { hnd = some (entry ∷ []); world = 100 }

-- Context 8 of runtime 7: the id 6 gets 16 bytes at 100, and the callback 2 is called.
abbrev after : Private ℕ
after = record {
  hnd = some (entry ∷ record { cx = 8; id = 6; cb = 2; storage = 100 } ∷ []);
  world = 118;
}

got : get_context_private host 7 8 6 16 2 before ≡ some (100, after)
unfolding get_context_private find_or_add find_entry add_entry storage_of notify
got = refl

get-get_example : get_context_private host 7 8 6 0 0 after ≡ some (100, after)
get-get_example =
    get-get host host-IsDiscreet 7 8 6 16 2 100 before after 0 0 (omega arith) got (λ e. cc)

abbrev hooked : Private ℕ
hooked = record {
  hnd = some (entry ∷ record { cx = 7; id = 0; cb = 4; storage = 0 } ∷ []);
  world = 104;
}

no_null : find_entry 8 0 (entry ∷ []) ≡ none
unfolding find_entry
no_null = refl

hooks : set_context_callback host 7 8 4 before ≡ some (4, hooked)
unfolding set_context_callback get_context_private find_or_add find_entry add_entry storage_of
    notify
hooks = refl

context_destroyed-told_example :
    context_destroyed host 7 8 2 before
    ≡ some (record {
      hnd = none;
      world = freed host 7 8 (entry ∷ []) (told host 7 8 (entry ∷ []) before).world;
    })
context_destroyed-told_example =
    context_destroyed-told host host-IsDiscreet 7 8 (entry ∷ []) before refl
