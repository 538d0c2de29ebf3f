-- ===== src/Vfs/Host/Keeps.antt =====
-- The edits of vfs.rs on a tree whose indices are all in the arena: how they keep it so.
use web_tos.Prelude.{
  ℕ, zero, suc, ◌+◌, ◌≤◌, ◌<◌, ◌≡◌, refl, ap, subst, ◌∙◌, List, [], ◌∷◌, ◌++◌, Bool, true, false,
  Bool-cases, some, inl, inr, arith, if◌then◌else◌, ◌==◌, length, set, length-set, length-append,
  Result, Result-cases, ok, err,
}
use web_tos.Prelude.Exec.{continue, pure, reads, lift, fail_if, ◌>>=◌}
use web_tos.Prelude.Bytes.{Bytes}
use web_tos.Prelude.ByteMap.{ByteMap, get}
use web_tos.Vfs.{
  Vfs, Node, NodeKind, dir, Fault, errno, root, node_in, dir_in, node_at, dir_at, entries_of,
}
use web_tos.Vfs.Edit.{Edit, alloc}
use web_tos.Vfs.Edit.Lookup.{dir_in-push, node_in-set, node_of_dir, dir_in-node_in}
use web_tos.Vfs.Path.Safe.{IsClosed, Safe}

-- The entries lead into an arena of this length.
abbrev pub EntriesBelow : ℕ → ByteMap ℕ → Type 0
EntriesBelow len entries = (m : Bytes) (i : ℕ) → get m entries ≡ some i → i < len

abbrev pub KindBelow : ℕ → NodeKind → Type 0
KindBelow len kind = (entries : ByteMap ℕ) → kind ≡ dir entries → EntriesBelow len entries

pub record NodeBelow (len : ℕ) (n : Node) : Type 0 where
  pub parent_in : n.parent < len
  pub kind_in : KindBelow len n.kind

-- `IsClosed`, node by node.
pub record IsSound (v : Vfs) : Type 0 where
  pub has_root : root < length v.nodes
  pub nodes_in : (i : ℕ) (n : Node) → node_at v i ≡ ok n → NodeBelow (length v.nodes) n

pub IsSound→IsClosed : (v : Vfs) → IsSound v → IsClosed v
IsSound→IsClosed v s = record {
  root_in = s.has_root;
  parents_in = λ i n here. (s.nodes_in i n here).parent_in;
  entries_in = λ d m i found. elim (Result-cases (dir_at v d)) [
    | inr (e, bad) ↦ absurd (ground (arith, bad, found))
    | inl (entries, here) ↦
        let (n, there, k) = node_of_dir v.nodes d here in
        (s.nodes_in d n there).kind_in entries k m i (rw here at found)
  ];
}

pub IsClosed→IsSound : (v : Vfs) → IsClosed v → IsSound v
unfolding dir_in
IsClosed→IsSound v c = record {
  has_root = c.root_in;
  nodes_in = λ i n here. record {
    parent_in = c.parents_in i n here;
    kind_in = λ entries k m j found.
        let d : dir_at v i ≡ ok entries = dir_in-node_in v.nodes i n here ∙ ap entries_of k in
        c.entries_in i m j (rw d found);
  };
}

NodeBelow-le : (a b : ℕ) (n : Node) → a ≤ b → NodeBelow a n → NodeBelow b n
NodeBelow-le a b n h s = record {
  parent_in = omega (arith, h, s.parent_in);
  kind_in = λ entries k m i found. omega (arith, h, s.kind_in entries k m i found);
}

-- What an edit of a sound tree may come to: an error number for the guest, or a value with `P`, and
-- a sound tree that has lost no index.
pub data Kept {ℓ κ} {A : Type ℓ} (P : A → Vfs → Type κ) (v : Vfs) (o : Result Fault A × Vfs)
    : Type (ℓ ⊔ κ) where
  failed :
      (e : ℕ) (w : Vfs)
      → o ≡ (err (errno e), w)
      → IsSound w
      → length v.nodes ≤ length w.nodes
      → Kept P v o
  done :
      (a : A) (w : Vfs)
      → o ≡ (ok a, w)
      → IsSound w
      → length v.nodes ≤ length w.nodes
      → P a w
      → Kept P v o

abbrev pub Keeps {ℓ κ} : {A : Type ℓ} → (A → Vfs → Type κ) → Edit A → Vfs → Type (ℓ ⊔ κ)
Keeps P m v = Kept P v (m v)

-- A step after others.
pub Kept-after {ℓ κ} :
    {A : Type ℓ} {P : A → Vfs → Type κ} (v w : Vfs) (o p : Result Fault A × Vfs)
    → o ≡ p
    → length v.nodes ≤ length w.nodes
    → Kept P w p
    → Kept P v o
Kept-after v w o p e g (failed x y h s k) = failed x y (e ∙ h) s (omega (arith, g, k))
Kept-after v w o p e g (done a y h s k q) = done a y (e ∙ h) s (omega (arith, g, k)) q

pub Keeps-bind {ℓ κ μ ν} :
    {A : Type ℓ} {B : Type κ} {P : A → Vfs → Type μ} {Q : B → Vfs → Type ν} (r : Edit A)
    (f : A → Edit B) (v : Vfs)
    → Keeps P r v
    → ((a : A) (w : Vfs) → IsSound w → length v.nodes ≤ length w.nodes → P a w → Keeps Q (f a) w)
    → Keeps Q (r >>= f) v
Keeps-bind r f v (failed e w h s g) next = failed e w (ap (λ o. continue o.0 f o.1) h) s g
Keeps-bind r f v (done a w h s g p) next =
    Kept-after v w ((r >>= f) v) (f a w) (ap (λ o. continue o.0 f o.1) h) g (next a w s g p)

pub Keeps-pure {ℓ κ} :
    {A : Type ℓ} {P : A → Vfs → Type κ} (a : A) (v : Vfs) → IsSound v → P a v → Keeps P (pure a) v
Keeps-pure a v s p = done a v refl s (omega arith) p

pub Keeps-reads {ℓ κ} :
    {A : Type ℓ} {P : A → Vfs → Type κ} (f : Vfs → Result Fault A) (v : Vfs)
    → IsSound v
    → Safe (λ a. P a v) (f v)
    → Keeps P (reads f) v
Keeps-reads f v s (inl (e, h)) = failed e v (ap (λ o. (o, v)) h) s (omega arith)
Keeps-reads f v s (inr (a, h, p)) = done a v (ap (λ o. (o, v)) h) s (omega arith) p

pub Keeps-lift {ℓ κ} :
    {A : Type ℓ} {P : A → Vfs → Type κ} (r : Result Fault A) (v : Vfs)
    → IsSound v
    → Safe (λ a. P a v) r
    → Keeps P (lift r) v
Keeps-lift r v s (inl (e, h)) = failed e v (ap (λ o. (o, v)) h) s (omega arith)
Keeps-lift r v s (inr (a, h, p)) = done a v (ap (λ o. (o, v)) h) s (omega arith) p

pub Keeps-fail_if :
    (test : Bool) (e : ℕ) (v : Vfs)
    → IsSound v
    → Keeps (λ _ w. (test ≡ false) × (w ≡ v)) (fail_if test (errno e)) v
Keeps-fail_if true e v s = failed e v refl s (omega arith)
Keeps-fail_if false e v s = done tt v refl s (omega arith) (refl, refl)

node_in-push :
    (nodes : List Node) (j : ℕ) (n : Node)
    → node_in (nodes ++ (n ∷ [])) j ≡ (if length nodes == j then ok n else node_in nodes j)
unfolding node_in
node_in-push [] zero n = refl
node_in-push [] (suc j) n = ground arith
node_in-push (m ∷ nodes) zero n = ground arith
node_in-push (m ∷ nodes) (suc j) n = ground (arith, node_in-push nodes j n)

abbrev pub NewIndex : Vfs → ℕ → Vfs → Type 0
NewIndex v i w = (i ≡ length v.nodes) × (length w.nodes ≡ length v.nodes + 1)

pub Keeps-alloc :
    (n : Node) (v : Vfs)
    → IsSound v
    → NodeBelow (length v.nodes) n
    → Keeps
        (λ i w.
          NewIndex v i w
          × ((j : ℕ)
              → dir_at w j ≡ (if length v.nodes == j then entries_of n.kind else dir_at v j)))
        (alloc n)
        v
unfolding alloc
Keeps-alloc n v s b =
    let more : length (v.nodes ++ (n ∷ [])) ≡ length v.nodes + 1 = length-append v.nodes (n ∷ []) in
    done (length v.nodes) (record v { nodes = v.nodes ++ (n ∷ []) }) refl
      (record {
        has_root = omega (arith, more, s.has_root);
        nodes_in = λ i m here. elim (Bool-cases (length v.nodes == i)) [
          | inl last ↦
              let same : n ≡ m = ground (arith, last, here, node_in-push v.nodes i n) in
              subst (λ x. NodeBelow (length (v.nodes ++ (n ∷ []))) x) same
                (NodeBelow-le (length v.nodes) _ n (omega (arith, more)) b)
          | inr old ↦
              let there : node_at v i ≡ ok m =
                ground (arith, old, here, node_in-push v.nodes i n) in
              NodeBelow-le (length v.nodes) _ m (omega (arith, more)) (s.nodes_in i m there)
        ];
      })
      (omega (arith, more)) ((refl, more), λ j. dir_in-push v.nodes j n)

-- A node written over one that is there.
pub IsSound-set :
    (v : Vfs) (i : ℕ) (n : Node)
    → IsSound v
    → i < length v.nodes
    → NodeBelow (length v.nodes) n
    → IsSound (record v { nodes = set v.nodes i n })
IsSound-set v i n s h b =
    let size = length-set v.nodes i n in
    record {
      has_root = omega (arith, size, s.has_root);
      nodes_in = λ j m here. elim (Bool-cases (i == j)) [
        | inl same_index ↦
            let same : n ≡ m = ground (arith, same_index, here, node_in-set v.nodes i j n h) in
            subst (λ x. NodeBelow (length (set v.nodes i n)) x) same
              (NodeBelow-le (length v.nodes) _ n (omega (arith, size)) b)
        | inr other ↦
            let there : node_at v j ≡ ok m =
              ground (arith, other, here, node_in-set v.nodes i j n h) in
            NodeBelow-le (length v.nodes) _ m (omega (arith, size)) (s.nodes_in j m there)
      ];
    }
