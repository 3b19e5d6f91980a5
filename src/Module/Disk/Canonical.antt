-- ===== src/Module/Disk/Canonical.antt =====
-- The canonical name of a file, in a buffer of PATH_MAX bytes on the stack.
use gpsee.Base.{
  ℕ, ◌+◌, ◌<◌, ◌≤◌, true, ◌≡◌, ap, ◌∷◌, List, some, arith, length, replicate, drop,
  length-replicate,
}
use gpsee.Base.Name.{Name}
use gpsee.Util.{System, path_max}
use gpsee.Util.Copy.{resolvepath_fits}
use gpsee.Util.Path.{take-length}
use gpsee.Module.Disk.{canonical}

module _ (sys : System) (path real : Name) where
  -- What `realpath` answers, if it is shorter than PATH_MAX.
  pub canonical_lem :
      sys.realpath path ≡ some real → length real < path_max → canonical sys path ≡ some real
  unfolding canonical
  canonical_lem found short =
      let buf : List ℕ = replicate path_max 0 in
      let room : path_max ≤ length buf = omega (arith, length-replicate {A = ℕ} path_max 0) in
      let wide : path_max < path_max → sys.grants path_max ≡ true = λ less. absurd (omega arith) in
      let done = resolvepath_fits sys path real buf path_max found short room wide in
      rw (done, canonical)
        (ap (λ (n : Name). some n) (take-length real (0 ∷ drop (length real + 1) buf)))
