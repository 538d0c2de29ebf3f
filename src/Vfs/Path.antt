-- ===== src/Vfs/Path.antt =====
-- Path resolution of vfs.rs: `components`, `resolve`, `resolve_depth`.
pub mod Safe
use web_tos.Prelude.{
  ℕ, zero, suc, List, [], ◌∷◌, Bool, true, false, not, ◌&&◌, none, some, if◌then◌else◌, ◌==◌,
  is_empty, Result, ok, err, ◌>>=◌, ok_or, panic,
}
use web_tos.Prelude.Bytes.{Bytes, bytes_eq}
use web_tos.Prelude.ByteMap.{get}
use web_tos.Abi.{enoent, enotdir, eloop}
use web_tos.Vfs.{Vfs, dir, symlink, Resolved, Fault, errno, stopped, root, node_at, dir_at, is_dir}

abbrev cons_head : ℕ → List Bytes → List Bytes
cons_head b [] = (b ∷ []) ∷ []
cons_head b (segment ∷ segments) = (b ∷ segment) ∷ segments

-- `path.split(|&b| b == sep)`
unfoldable pub split : ℕ → Bytes → List Bytes
split sep [] = [] ∷ []
split sep (b ∷ bytes) = if b == sep then [] ∷ split sep bytes else cons_head b (split sep bytes)

abbrev pub dot : Bytes
dot = b'.' ∷ []

abbrev pub dot_dot : Bytes
dot_dot = b'.' ∷ b'.' ∷ []

-- Empty segments and `.` are dropped.
unfoldable pub named : List Bytes → List Bytes
named [] = []
named (c ∷ cs) = if not (is_empty c) && not (bytes_eq c dot) then c ∷ named cs else named cs

-- `components`
unfoldable pub components : Bytes → List Bytes
unfolding split named
components path = named (split b'/' path)

module _ (v : Vfs) (below : ℕ → Bytes → Result Fault Resolved) where
  -- The node itself, as `.`.
  abbrev pub itself : ℕ → Result Fault Resolved
  itself current = do
    n ← node_at v current
    ok (record { parent = n.parent; name = dot; node = some current })

  -- The last component; `below` resolves a link's target from its directory.
  unfoldable pub last_step : Bool → ℕ → Bytes → Result Fault Resolved
  last_step follow_last current component = do
    entries ← dir_at v current
    let next = get component entries
    let found : Resolved = record { parent = current; name = component; node = next }
    elim next [
      | none ↦ ok found
      | some i ↦
          if follow_last
          then (do
            n ← node_at v i
            elim n.kind [ symlink target ↦ below current target.items | _ ↦ ok found ])
          else ok found
    ]

  -- A component before the last: the directory that it leads to.
  unfoldable pub inner_step : ℕ → Bytes → Result Fault ℕ
  inner_step current component = do
    entries ← dir_at v current
    next ← ok_or (get component entries) (errno enoent)
    n ← node_at v next
    elim n.kind [
      | symlink target ↦ do
        resolved ← below current target.items
        node ← ok_or resolved.node (errno enoent)
        directory ← is_dir v node
        if directory then ok node else err (errno enotdir)
      | dir _ ↦ ok next
      | _ ↦ err (errno enotdir)
    ]

  -- The loop over the components.
  unfoldable pub walk : Bool → ℕ → List Bytes → Result Fault Resolved
  unfolding last_step inner_step
  walk follow_last current [] = err (stopped panic)
  walk follow_last current (component ∷ []) = elim (bytes_eq component dot_dot) [
    | true ↦ do n ← node_at v current; itself n.parent
    | false ↦ last_step follow_last current component
  ]
  walk follow_last current (component ∷ (c ∷ rest)) = elim (bytes_eq component dot_dot) [
    | true ↦ do n ← node_at v current; walk follow_last n.parent (c ∷ rest)
    | false ↦ do next ← inner_step current component; walk follow_last next (c ∷ rest)
  ]

abbrev pub starts_at_root : Bytes → Bool
starts_at_root [] = false
starts_at_root (b ∷ _) = b == b'/'

-- `resolve_depth`, with the links that may still be followed: its `depth` is 9 less than these, so
-- that none left is `depth > 8`.
unfoldable pub resolve_depth : ℕ → Vfs → ℕ → Bytes → Bool → Result Fault Resolved
unfolding walk components
resolve_depth zero v start path follow_last = err (errno eloop)
resolve_depth (suc left) v start path follow_last =
    let current = if starts_at_root path then root else start in
    let below : ℕ → Bytes → Result Fault Resolved =
      λ from target. resolve_depth left v from target true in
    elim (is_empty (components path)) [
      | true ↦ itself v below current
      | false ↦ walk v below follow_last current (components path)
    ]

-- `resolve`
unfoldable pub resolve : Vfs → ℕ → Bytes → Bool → Result Fault Resolved
unfolding resolve_depth
resolve v start path follow_last =
    if is_empty path then err (errno enoent) else resolve_depth 9 v start path follow_last
