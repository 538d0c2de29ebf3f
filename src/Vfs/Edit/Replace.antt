-- ===== src/Vfs/Edit/Replace.antt =====
-- The check of `rename` in vfs.rs on the node that it replaces.
use web_tos.Prelude.{
  ℕ, ◌<◌, ◌≡◌, ◌≢◌, ◌⊎◌, refl, [], ◌∷◌, Option, none, some, inl, inr, ok, err, length,
}
use web_tos.Prelude.ByteMap.{ByteMap}
use web_tos.Abi.{enotempty}
use web_tos.Vfs.{Vfs, Node, NodeKind, dir, file, chunked, symlink, char_dev, errno, node_at}
use web_tos.Vfs.Edit.{check_replaced}
use web_tos.Vfs.Edit.Lookup.{node_in_of_lt}

-- No directory with entries is in the way.
abbrev pub Replaceable : Vfs → Option ℕ → Type 0
Replaceable v o =
    (existing : ℕ) (n : Node) (children : ByteMap ℕ)
    → o ≡ some existing
    → node_at v existing ≡ ok n
    → n.kind ≡ dir children
    → children ≡ []

-- A directory with entries is in the way.
abbrev pub InTheWay : Vfs → Option ℕ → Type 0
InTheWay v o =
    (existing : ℕ) × (n : Node) × (children : ByteMap ℕ) × (o ≡ some existing)
    × (node_at v existing ≡ ok n)
    × (n.kind ≡ dir children)
    × (children ≢ [])

check_replaced_kind :
    (v : Vfs) (i : ℕ) (n : Node)
    → node_at v i ≡ ok n
    → (k : NodeKind) → n.kind ≡ k
    → (check_replaced v (some i) ≡ ok tt) × Replaceable v (some i)
      ⊎ (check_replaced v (some i) ≡ err (errno enotempty)) × InTheWay v (some i)
unfolding check_replaced
check_replaced_kind v i n here (dir []) q =
    inl (rw (here, check_replaced, q) refl, λ j m c same at d. cc)
check_replaced_kind v i n here (dir (c ∷ children)) q =
    inr (rw (here, check_replaced, q) refl, (i, n, c ∷ children, refl, here, q, cc))
check_replaced_kind v i n here (file _) q =
    inl (rw (here, check_replaced, q) refl, λ j m c same at d. cc)
check_replaced_kind v i n here (chunked _) q =
    inl (rw (here, check_replaced, q) refl, λ j m c same at d. cc)
check_replaced_kind v i n here (symlink _) q =
    inl (rw (here, check_replaced, q) refl, λ j m c same at d. cc)
check_replaced_kind v i n here (char_dev _) q =
    inl (rw (here, check_replaced, q) refl, λ j m c same at d. cc)

pub check_replaced_lem :
    (v : Vfs) (o : Option ℕ)
    → ((i : ℕ) → o ≡ some i → i < length v.nodes)
    → (check_replaced v o ≡ ok tt) × Replaceable v o
      ⊎ (check_replaced v o ≡ err (errno enotempty)) × InTheWay v o
unfolding check_replaced
check_replaced_lem v none inside = inl (refl, λ existing n children h at d. cc)
check_replaced_lem v (some i) inside =
    let (n, here) = node_in_of_lt v.nodes i (inside i refl) in
    check_replaced_kind v i n here n.kind refl
