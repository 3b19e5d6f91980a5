-- ===== src/Tests/Hooks.antt =====
-- The hooks of gpsee_hookable_io.c.
use mathlib.Core.Option.{some-injective}
use gpsee.Base.{
  ◌≢◌, ℕ, zero, suc, ◌<◌, ◌≤◌, ◌⊎◌, ◌≡◌, refl, sym, ap, ◌∙◌, true, false, List, [], ◌∷◌, ◌++◌,
  Option, none, some, arith, length, get_elem?,
}
use gpsee.Base.Text.{codes}
use gpsee.Platform.{Platform}
use gpsee.Hooks.{Hook, UserIo, integer, text, Host, fwrite_hook, hook_file_descriptor}
use gpsee.Hooks.Table.{IsSound, IsRealloc}
use gpsee.Hooks.Output.{fwrite_hook-hook_file_descriptor}

-- The world is what has been written.
abbrev platform : Platform (List ℕ)
platform = record {
  grants = λ n. true;
  enter = λ m w. w;
  exit = λ m w. w;
  exit-enter = λ m w. refl;
  new_monitor = λ w. (9, w);
  destroy = λ m w. w;
}

abbrev host : Host (List ℕ)
host = record {
  void = 22;
  throwing = λ w. false;
  report = λ w. w;
  rooted = λ w. true;
  string = λ s w. true;
  call = λ realm hook s w. (integer (length s), w ++ s);
  ask = λ realm hook w. (text (codes "hi"), w);
  schedule = λ realm w. w;
  write = λ fd size nitems s w. (nitems, w ++ s);
  read = λ fd size nitems w. (0, [], w);
  get_line = λ fd len block w. (none, block, w);
  get_char = λ fd w. (none, w);
}

abbrev blank : Hook
blank = record { realm = 0; input = 22; output = 22 }

-- The old entries, and new ones behind them.
over : List Hook → ℕ → List Hook
over old zero = []
over [] (suc n) = blank ∷ over [] n
over (x ∷ old) (suc n) = x ∷ over old n

length-over : (old : List Hook) (n : ℕ) → length (over old n) ≡ n
unfolding over
length-over old zero = refl
length-over [] (suc n) = ap suc (length-over [] n)
length-over (x ∷ old) (suc n) = ap suc (length-over old n)

get_elem?-over :
    (old : List Hook) (n i : ℕ)
    → i < length old
    → i < n
    → get_elem? (over old n) i ≡ get_elem? old i
unfolding over
get_elem?-over old zero i lt below = absurd (omega (arith, below))
get_elem?-over [] (suc n) i lt below = absurd (omega (arith, lt))
get_elem?-over (x ∷ old) (suc n) zero lt below = refl
get_elem?-over (x ∷ old) (suc n) (suc i) lt below =
    get_elem?-over old n i (omega (arith, lt)) (omega (arith, below))

realloc : Option (List Hook) → ℕ → Option (List Hook)
realloc none n = some (over [] n)
realloc (some old) n = some (over old n)

realloc-IsRealloc : IsRealloc realloc
unfolding realloc
realloc-IsRealloc = record {
  sized = sized;
  kept = λ old block n i given lt below.
      ap (λ (b : List Hook). get_elem? b i) (sym (some-injective _ _ given))
      ∙ get_elem?-over old n i lt below;
}
  where
    sized :
        (old : Option (List Hook)) (n : ℕ)
        → (block : List Hook) × (realloc old n ≡ some block) × (length block ≡ n)
    sized none n = (over [] n, refl, length-over [] n)
    sized (some old) n = (over old n, refl, length-over old n)

abbrev one_hook : UserIo
one_hook = record {
  hooks = some (record { realm = 5; input = 22; output = 60 } ∷ []);
  hooks_len = 1;
  hooked = true;
}

fwrite_hook-hook_file_descriptor_example :
    (io' : UserIo) × (hook_file_descriptor 22 realloc 2 61 62 5 one_hook ≡ some (true, io'))
    × IsSound io'
    × (fwrite_hook platform host 9 2 1 2 (codes "ok") io' [] ≡ some (2, codes "ok"))
    × (◌≡◌ {A = ℕ} 0 2
        ⊎ ((one_hook.hooks ≢ none) × (1 ≤ 0))
        ⊎ (fwrite_hook platform host 9 0 1 2 (codes "ok") io' []
            ≡ fwrite_hook platform host 9 0 1 2 (codes "ok") one_hook []))
fwrite_hook-hook_file_descriptor_example =
    fwrite_hook-hook_file_descriptor platform host 9 realloc realloc-IsRealloc 2 61 62 5 0 1 2
      (codes "ok") one_hook [] (omega arith) (omega arith) (ground arith) (ground arith) refl refl
      refl
