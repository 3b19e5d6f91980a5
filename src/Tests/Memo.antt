-- ===== src/Tests/Memo.antt =====
-- A memo of modules as an association list.
use gpsee.Base.{ℕ, ◌≡◌, ◌≢◌, List, [], ◌∷◌, refl, inl, inr, Bool-cases, arith, ◌==◌, if◌then◌else◌}
use gpsee.Base.Name.{Name, same_name, same_name_refl, same_name_eq}
use gpsee.Util.Path.{Lacks, Lacks-cons}
use gpsee.Module.{Splay}

abbrev pub Table : Type 0
Table = List (Name × ℕ)

unfoldable pub find : Name → Table → ℕ
find j [] = 0
find j ((k, p) ∷ t) = if same_name j k then p else find j t

unfoldable pub insert : Name → ℕ → Table → Table
unfolding find
insert k p t = if find k t == 0 then (k, p) ∷ t else t

unfoldable pub remove : Name → Table → Table
remove k [] = []
remove k ((x, p) ∷ t) = let rest = remove k t in if same_name k x then rest else (x, p) ∷ rest

unfoldable pub nodes : Table → List ℕ
nodes [] = []
nodes ((k, p) ∷ t) = p ∷ nodes t

pub find-insert :
    (j k : Name) (p : ℕ) (t : Table)
    → find j (insert k p t)
      ≡ (if same_name j k then (if find k t == 0 then p else find k t) else find j t)
unfolding find insert
find-insert j k p t = ground (arith, same_name_eq j k)

pub find-remove :
    (j k : Name) (t : Table) → find j (remove k t) ≡ (if same_name j k then 0 else find j t)
unfolding find remove
find-remove j k [] = ground arith
find-remove j k ((x, p) ∷ t) = ground (
  arith,
  find-remove j k t,
  same_name_eq j k,
  same_name_eq j x,
  same_name_eq k x,
  same_name_refl x,
  same_name_refl j,
)

pub find-nodes : (k : Name) (t : Table) → find k t ≢ 0 → ¬ Lacks (find k t) (nodes t)
unfolding find nodes
find-nodes k [] ne = ground arith
find-nodes k ((x, p) ∷ t) ne = elim (Bool-cases (same_name k x)) [
  | inl h ↦ rw h (λ l. (Lacks-cons l).0 refl)
  | inr h ↦ rw h (λ l. find-nodes k t (ground (arith, h)) (Lacks-cons l).1)
]

abbrev pub table : Splay Table
table = record {
  find = find;
  insert = insert;
  remove = remove;
  nodes = nodes;
  find-insert = find-insert;
  find-remove = find-remove;
  find-nodes = find-nodes;
}
