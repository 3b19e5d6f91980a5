-- ===== src/Hooks.antt =====
-- gpsee_hookable_io.c: output and input of the interpreter that scripts may take over, by file
-- descriptor. `none` is a panic or an access to memory that is not there; a jsval and a pointer are
-- numbers, NULL is 0.
pub mod Table
pub mod Output
pub mod Faults
pub mod Input
use gpsee.Base.{
  ℕ, zero, suc, ◌+◌, ◌-◌, ◌*◌, min, ◌≡◌, Bool, true, false, not, ◌||◌, List, [], ◌∷◌, ◌++◌, Option,
  none, some, ltb, leb, ◌==◌, if◌then◌else◌, length, get_elem?, set, take, drop, replicate,
}
use gpsee.Platform.{Platform}
use gpsee.Util.{◌>>=◌, poke}
use gpsee.DataStore.{Store}
use gpsee.GcCallback.{add_gc_callback}

pub record Hook : Type 0 where
  pub realm : ℕ
  pub input : ℕ
  pub output : ℕ

-- The table, its length as `hooks_len` has it, and whether the functions of the runtime are those of
-- this file instead of stdio's.
pub record UserIo : Type 0 where
  pub hooks : Option (List Hook)
  pub hooks_len : ℕ
  pub hooked : Bool

-- What a hook returns.
pub data Answer : Type 0 where
  threw other negative : Answer
  integer : ℕ → Answer
  text : List ℕ → Answer

-- SpiderMonkey and stdio, and `gpsee_addAsyncCallback` for a realm.
pub record Host (W : Type 0) : Type 0 where
  pub void : ℕ
  pub throwing : W → Bool
  pub report : W → W
  -- JS_EnterLocalRootScope, and whether JS_NewStringCopyN gives a string of the bytes.
  pub rooted : W → Bool
  pub string : List ℕ → W → Bool
  pub call : ℕ → ℕ → List ℕ → W → Answer × W
  pub ask : ℕ → ℕ → W → Answer × W
  pub schedule : ℕ → W → W
  pub write : ℕ → ℕ → ℕ → List ℕ → W → ℕ × W
  pub read : ℕ → ℕ → ℕ → W → ℕ × List ℕ × W
  pub get_line : ℕ → ℕ → List ℕ → W → Option (List ℕ) × List ℕ × W
  pub get_char : ℕ → W → Option ℕ × W

-- `hooks[fd]`
unfoldable pub hook_at : ℕ → UserIo → Option Hook
hook_at fd io = io.hooks >>= λ hooks. get_elem? hooks fd

module _ {W : Type 0} (p : Platform W) (h : Host W) (monitor : ℕ) where
  -- Without a root scope or a string it panics; `realm->globalObject` is read.
  unfoldable pub fwrite_js : ℕ → ℕ → List ℕ → W → Option (ℕ × W)
  fwrite_js realm hook s w =
      if not (h.rooted w) || not (h.string s w) || (realm == 0)
      then none
      else (let (answer, w₁) = h.call realm hook s w in
          elim answer [
            | threw ↦ some (0, h.report w₁)
            | other ↦ some (length s, w₁)
            | negative ↦ some (0, w₁)
            | integer n ↦ some (n, w₁)
            | text t ↦ some (length s, w₁)
          ])

  -- The pending write is filled in, and never stored.
  unfoldable pub fwrite_later : ℕ → List ℕ → W → Option (ℕ × W)
  fwrite_later realm s w =
      if not (p.grants 24) || not (p.grants (length s))
      then none
      else some (length s, h.schedule realm w)

  -- `s` is the `size * nitems` bytes.
  unfoldable pub fwrite_hook : ℕ → ℕ → ℕ → List ℕ → UserIo → W → Option (ℕ × W)
  fwrite_hook fd size nitems s io w =
      let w₁ = p.enter monitor w in
      if leb io.hooks_len fd
      then some (h.write fd size nitems s (p.exit monitor w₁))
      else (hook_at fd io >>= λ hook.
          if hook.output == h.void
          then some (h.write fd size nitems s (p.exit monitor w₁))
          else ((if h.throwing w₁
                then fwrite_later hook.realm s w₁
                else fwrite_js hook.realm hook.output s w₁)
              >>= λ (n, w₂). some (n, p.exit monitor w₂)))

  -- What vsnprintf makes of the format is `none` where it fails; the inner `none` of the result is -1.
  unfoldable pub vfprintf_hook : ℕ → Option (List ℕ) → UserIo → W → Option (Option ℕ × W)
  vfprintf_hook fd none io w = some (none, w)
  vfprintf_hook fd (some []) io w = some (some 0, w)
  vfprintf_hook fd (some (c ∷ s)) io w =
      if p.grants (suc (length (c ∷ s)))
      then (fwrite_hook fd 1 (length (c ∷ s)) (c ∷ s) io w >>= λ (n, w₁). some (some n, w₁))
      else none

  unfoldable pub fprintf_hook : ℕ → Option (List ℕ) → UserIo → W → Option (Option ℕ × W)
  fprintf_hook fd s io w =
      let w₁ = p.enter monitor w in
      elim io.hooks [
        | none ↦ elim s [
          | none ↦ some (none, p.exit monitor w₁)
          | some t ↦ let (n, w₂) = h.write fd 1 (length t) t w₁ in some (some n, p.exit monitor w₂)
        ]
        | some hooks ↦ vfprintf_hook fd s io w₁ >>= λ (n, w₂). some (n, p.exit monitor w₂)
      ]

  -- On the descriptor of stdout.
  unfoldable pub printf_hook : Option (List ℕ) → UserIo → W → Option (Option ℕ × W)
  printf_hook s io w = fprintf_hook 1 s io w

  unfoldable pub fputs_hook : ℕ → List ℕ → UserIo → W → Option (ℕ × W)
  fputs_hook fd s io w = fwrite_hook fd 1 (length s) s io w

  unfoldable pub puts_hook : List ℕ → UserIo → W → Option (ℕ × W)
  puts_hook s io w = fwrite_hook 1 1 (length s) s io w

  unfoldable pub fputc_hook : ℕ → ℕ → UserIo → W → Option (ℕ × W)
  fputc_hook fd c io w = fwrite_hook fd 1 1 (c ∷ []) io w

  -- An exception of the hook is reported.
  unfoldable pub reported : Answer → W → W
  reported threw w = h.report w
  reported other w = w
  reported negative w = w
  reported (integer n) w = w
  reported (text t) w = w

  -- What stands before each of the functions that read: stdio is to be used, or the input hook has
  -- answered. It looks for an output hook.
  unfoldable pub input_answer : ℕ → UserIo → W → Option (Option Answer × W)
  input_answer fd io w =
      let w₁ = p.enter monitor w in
      if leb io.hooks_len fd
      then some (none, p.exit monitor w₁)
      else (hook_at fd io >>= λ hook.
          if hook.output == h.void
          then some (none, p.exit monitor w₁)
          else (if hook.realm == 0
              then none
              else (let (answer, w₂) = h.ask hook.realm hook.input w₁ in
                  some (some answer, p.exit monitor (reported answer w₂)))))

  -- `memcpy` to the start of a block.
  unfoldable pub copy_in : List ℕ → List ℕ → Option (List ℕ)
  copy_in s block =
      if leb (length s) (length block) then some (s ++ drop (length s) block) else none

  -- `len` is positive; whether a line was got, and the block. What `gpsee_getRealm` finds is not used.
  unfoldable pub fgets_hook : ℕ → ℕ → List ℕ → UserIo → W → Option (Bool × List ℕ × W)
  fgets_hook fd len block io w = input_answer fd io w >>= λ (a, w₁). elim a [
    | none ↦
        let (line, block', w₂) = h.get_line fd len block w₁ in
        some (elim line [ none ↦ false | some s ↦ true ], block', w₂)
    | some answer ↦ elim answer [
      | text t ↦ copy_in (take (min (len - 1) (length t)) t) block >>= λ b.
          poke (len - 1) 0 b >>= λ b'. some (true, b', w₁)
      | threw ↦ some (false, block, w₁)
      | other ↦ some (false, block, w₁)
      | negative ↦ some (false, block, w₁)
      | integer n ↦ some (false, block, w₁)
    ]
  ]

  -- The byte is that of the string with its NUL; the inner `none` is -1.
  unfoldable pub fgetc_hook : ℕ → UserIo → W → Option (Option ℕ × W)
  fgetc_hook fd io w = input_answer fd io w >>= λ (a, w₁). elim a [
    | none ↦ some (h.get_char fd w₁)
    | some answer ↦ elim answer [
      | text t ↦ elim t [ [] ↦ some (some 0, w₁) | c ∷ s ↦ some (some c, w₁) ]
      | threw ↦ some (none, w₁)
      | other ↦ some (none, w₁)
      | negative ↦ some (none, w₁)
      | integer n ↦ some (none, w₁)
    ]
  ]

  -- What it returns, and the block; for a hook that is a number of bytes.
  unfoldable pub fread_hook : ℕ → ℕ → ℕ → List ℕ → UserIo → W → Option (ℕ × List ℕ × W)
  fread_hook fd size nitems block io w = input_answer fd io w >>= λ (a, w₁). elim a [
    | none ↦ let (n, s, w₂) = h.read fd size nitems w₁ in copy_in s block >>= λ b. some (n, b, w₂)
    | some answer ↦ elim answer [
      | text t ↦
          let n = min (size * nitems) (length t) in
          copy_in (take n t) block >>= λ b. some (n, b, w₁)
      | threw ↦ some (0, block, w₁)
      | other ↦ some (0, block, w₁)
      | negative ↦ some (0, block, w₁)
      | integer n ↦ some (0, block, w₁)
    ]
  ]

  -- `gpsee_resetIOHooks`, with the list of the garbage collector's callbacks, to which `uio_GCCallback` is
  -- added for no realm.
  unfoldable pub reset_io_hooks : ℕ → Store → UserIo → W → UserIo × Store × W
  reset_io_hooks callback list io w =
      let w₁ = p.exit monitor (p.enter monitor w) in
      let (ok, list', w₂) = add_gc_callback p list 0 callback w₁ in
      (record { hooks = none; hooks_len = 0; hooked = false }, list', w₂)

  unfoldable pub hook_marks : List Hook → List ℕ
  hook_marks [] = []
  hook_marks (hook ∷ hooks) =
      (if hook.input == h.void then [] else hook.input ∷ [])
      ++ ((if hook.output == h.void then [] else hook.output ∷ []) ++ hook_marks hooks)

  -- The jsvals that `uio_GCCallback` marks, in order, at the end of the marking or at another status.
  unfoldable pub uio_gc_callback : Bool → UserIo → W → Option (List ℕ × W)
  uio_gc_callback mark_end io w =
      if not mark_end
      then some ([], w)
      else ((if io.hooks_len == 0
            then some []
            else (io.hooks >>= λ hooks.
                if leb io.hooks_len (length hooks)
                then some (hook_marks (take io.hooks_len hooks))
                else none))
          >>= λ marks. some (marks, p.exit monitor (p.enter monitor w)))

-- `void` into both hooks of the first `n` slots.
unfoldable pub void_hooks : ℕ → ℕ → List Hook → List Hook
void_hooks void n [] = []
void_hooks void zero (hook ∷ hooks) = hook ∷ hooks
void_hooks void (suc n) (hook ∷ hooks) =
    record hook { input = void; output = void } ∷ void_hooks void n hooks

module _ (void : ℕ) (realloc : Option (List Hook) → ℕ → Option (List Hook)) where
  -- The table with room for a descriptor, and whether there is one. The length is set before the block
  -- is granted.
  unfoldable pub make_hooks : ℕ → UserIo → Bool × UserIo
  make_hooks fd io =
      let n = 1 + min fd 2 in
      if leb io.hooks_len (min fd 2)
      then (elim (realloc io.hooks n) [
        | none ↦ (false, record io { hooks_len = n })
        | some block ↦ (
          true,
          record io {
            hooks_len = n;
            hooks = some (elim io.hooks [ none ↦ void_hooks void n block | some old ↦ block ]);
          },
        )
      ])
      else (true, io)

  -- `hookFileDescriptor`, for what `gpsee_getRealm` returns; all of it is within the monitor.
  unfoldable pub hook_file_descriptor : ℕ → ℕ → ℕ → ℕ → UserIo → Option (Bool × UserIo)
  hook_file_descriptor fd input output realm io =
      let (ok, io') = make_hooks fd io in
      if ok
      then (io'.hooks >>= λ hooks.
          if ltb fd (length hooks)
          then some (
            true,
            record io' {
              hooks =
                  some (set hooks fd (record { realm = realm; input = input; output = output }));
              hooked = true;
            },
          )
          else none)
      else some (false, io')

-- What the destruction of any realm does to every hook: `memset` to 0, each within the monitor.
unfoldable pub clear_hooks : UserIo → Option UserIo
clear_hooks io =
    if io.hooks_len == 0
    then some io
    else (io.hooks >>= λ hooks.
        if leb io.hooks_len (length hooks)
        then some (record io {
          hooks = some (
              replicate io.hooks_len (record { realm = 0; input = 0; output = 0 })
              ++ drop io.hooks_len hooks);
        })
        else none)
