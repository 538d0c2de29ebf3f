-- ===== src/Vfs/Snapshot/Restore.antt =====
-- `deserialize` of vfs.rs reads back what `serialize` wrote.
use mathlib.Core.List.{append_assoc}
use web_tos.Prelude.{
  ℕ, ◌*◌, ◌^◌, ◌≤◌, ◌<◌, ◌≡◌, refl, ap, sym, List, [], ◌∷◌, ◌++◌, false, Option, none, some, arith,
  length, length-append, append_nil, leb, ltb, map, All, take-append_self, drop-append_self, ok,
}
use web_tos.Prelude.Bytes.{Bytes, le_bytes}
use web_tos.Prelude.ByteMap.{ByteMap, IsSorted, insert-append}
use web_tos.Chunk.{ByteVec, ChunkedFile, Hash}
use web_tos.Vfs.{
  Node, NodeKind, dir, file, chunked, symlink, char_dev, Dev, null_dev, zero_dev, tty_dev,
  random_dev, ptmx_dev,
}
use web_tos.Vfs.Storage.{usize_max}
use web_tos.Vfs.Snapshot.{
  entries_image, hashes_image, kind_image, node_image, nodes_image, root_image, read_entries,
  read_dir, read_file, read_symlink, read_device, device, device_tag, hash_table, layout,
  read_chunked, read_kind, read_node, read_nodes, read_root, root_of_tag, stored, snapshot_version,
}
use web_tos.Prelude.Reader.{Reads, Reads-bind, Reads-map, Reads-fail_if, Reads-pure}
use web_tos.Vfs.Snapshot.Reads.{Reads-taken, Reads-number, Reads-index}

-- An entry that the image has room for.
abbrev pub Fits : ℕ → Bytes × ℕ → Type 0
Fits count (name, child) = (length name < 2 ^ 16) × (child < count)

entries_lem :
    (count : ℕ) (acc entries : ByteMap ℕ)
    → count ≤ 4_000_000
    → IsSorted (acc ++ entries)
    → All (Fits count) entries
    → Reads (read_entries count (length entries) acc) (entries_image entries) (acc ++ entries)
unfolding read_entries entries_image
entries_lem count acc [] small s h = rw (append_nil acc) (Reads-pure acc)
entries_lem count acc ((name, child) ∷ entries) small s h =
    let below : leb count child ≡ false = ground (arith, h.0.1) in
    let grown = insert-append name child acc entries s in
    let whole = append_assoc acc ((name, child) ∷ []) entries in
    Reads-bind _ (Reads-number 2 (length name) h.0.0) (
      Reads-bind _ (Reads-taken (length name) name refl) (
        Reads-bind _ (Reads-number 8 child (omega (arith, h.0.1))) (
          Reads-bind _ (Reads-index child (omega (arith, h.0.1))) (
            Reads-fail_if _ below (
              rw (grown, ← whole)
                (entries_lem count (acc ++ ((name, child) ∷ [])) entries small (rw whole s)
                  h.1))))))

-- What an image keeps of a node: the bytes, without the room that was reserved for more.
abbrev pub kept_kind : NodeKind → NodeKind
kept_kind (file data_of) = file (stored data_of.items)
kept_kind (symlink target) = symlink (stored target.items)
kept_kind k = k

-- A kind that the image has room for, in a tree of `count` nodes.
abbrev pub KindFits : ℕ → NodeKind → Type 0
KindFits count (dir entries) =
    IsSorted entries × (length entries < 2 ^ 32) × All (Fits count) entries
KindFits count (file data_of) = length data_of.items < 2 ^ 32
KindFits count (chunked f) =
    (f.size < 2 ^ 64)
    × (f.chunk_size < 2 ^ 32)
    × (length f.chunks * 32 < 2 ^ 32)
    × All (λ h. length h ≡ 32) f.chunks
    × (web_tos.Chunk.new f.size f.chunk_size f.chunks ≡ ok f)
KindFits count (symlink target) = length target.items < 2 ^ 16
KindFits count (char_dev dev) = Unit {0}

abbrev kind_tag : NodeKind → ℕ
kind_tag (dir _) = 1
kind_tag (file _) = 2
kind_tag (chunked _) = 5
kind_tag (symlink _) = 3
kind_tag (char_dev _) = 4

abbrev kind_body : NodeKind → Bytes
kind_body (dir entries) = le_bytes 4 (length entries) ++ entries_image entries
kind_body (file data_of) = le_bytes 8 (length data_of.items) ++ data_of.items
kind_body (chunked f) =
    le_bytes 8 f.size
    ++ (le_bytes 4 f.chunk_size ++ (le_bytes 8 (length f.chunks) ++ hashes_image f.chunks))
kind_body (symlink target) = le_bytes 2 (length target.items) ++ target.items
kind_body (char_dev dev) = le_bytes 1 (device_tag dev)

kind_parts : (k : NodeKind) → kind_image k ≡ le_bytes 1 (kind_tag k) ++ kind_body k
unfolding kind_image le_bytes
kind_parts (dir _) = refl
kind_parts (file _) = refl
kind_parts (chunked _) = refl
kind_parts (symlink _) = refl
kind_parts (char_dev null_dev) = refl
kind_parts (char_dev zero_dev) = refl
kind_parts (char_dev tty_dev) = refl
kind_parts (char_dev random_dev) = refl
kind_parts (char_dev ptmx_dev) = refl

length-hashes_image :
    (hashes : List Hash)
    → All (λ h. length h ≡ 32) hashes
    → length (hashes_image hashes) ≡ length hashes * 32
unfolding hashes_image
length-hashes_image [] h = refl
length-hashes_image (x ∷ hashes) h =
    omega (arith, length-append x (hashes_image hashes), h.0, length-hashes_image hashes h.1)

hash_table-hashes_image :
    (hashes : List Hash)
    → All (λ h. length h ≡ 32) hashes
    → hash_table (length hashes) (hashes_image hashes) ≡ hashes
unfolding hash_table hashes_image
hash_table-hashes_image [] h = refl
hash_table-hashes_image (x ∷ hashes) h =
    rw (sym h.0, take-append_self x (hashes_image hashes), drop-append_self x (hashes_image hashes))
      (ap (λ l. x ∷ l) (hash_table-hashes_image hashes h.1))

device_lem : (dev : Dev) → Reads (device (device_tag dev)) [] dev
unfolding device
device_lem null_dev = Reads-pure null_dev
device_lem zero_dev = Reads-pure zero_dev
device_lem tty_dev = Reads-pure tty_dev
device_lem random_dev = Reads-pure random_dev
device_lem ptmx_dev = Reads-pure ptmx_dev

device_tag-lt : (dev : Dev) → device_tag dev < 256
device_tag-lt null_dev = omega arith
device_tag-lt zero_dev = omega arith
device_tag-lt tty_dev = omega arith
device_tag-lt random_dev = omega arith
device_tag-lt ptmx_dev = omega arith

chunked_lem :
    (f : ChunkedFile)
    → KindFits 0 (chunked f)
    → Reads read_chunked (kind_body (chunked f)) (chunked f)
unfolding read_chunked layout
chunked_lem f h =
    let n = length f.chunks in
    let (size, chunk_size, table, hashes, valid) = h in
    let narrow : ltb usize_max (n * 32) ≡ false = ground (arith, table) in
    Reads-bind _ (Reads-number 8 f.size size) (
      Reads-bind _ (Reads-number 4 f.chunk_size chunk_size) (
        Reads-bind _ (Reads-number 8 n (omega (arith, table))) (
          Reads-bind _ (Reads-index n (omega (arith, table))) (
            Reads-fail_if _ narrow (
              Reads-map _
                (Reads-taken (n * 32) (hashes_image f.chunks) (length-hashes_image f.chunks hashes))
                (rw (hash_table-hashes_image f.chunks hashes, layout, valid)
                  (Reads-pure (chunked f))))))))

kind_lem :
    (count : ℕ) (k : NodeKind)
    → count ≤ 4_000_000
    → KindFits count k
    → Reads (read_kind snapshot_version count (kind_tag k)) (kind_body k) (kept_kind k)
unfolding read_kind read_dir read_file read_symlink read_device
kind_lem count (dir entries) small h =
    Reads-bind _ (Reads-number 4 (length entries) h.1)
      (Reads-map _ (entries_lem count [] entries small h.0 h.2) (Reads-pure (dir entries)))
kind_lem count (file data_of) small h =
    let n = length data_of.items in
    Reads-bind _ (Reads-number 8 n (omega (arith, h))) (
      Reads-bind _ (Reads-index n h)
        (Reads-map _ (Reads-taken n data_of.items refl) (Reads-pure (file (stored data_of.items)))))
kind_lem count (chunked f) small h = chunked_lem f h
kind_lem count (symlink target) small h =
    let n = length target.items in
    Reads-bind _ (Reads-number 2 n h)
      (Reads-map _ (Reads-taken n target.items refl) (Reads-pure (symlink (stored target.items))))
kind_lem count (char_dev dev) small h =
    Reads-map _ (Reads-number 1 (device_tag dev) (device_tag-lt dev))
      (Reads-bind _ (device_lem dev) (Reads-pure (char_dev dev)))

-- A node that the image has room for, in a tree of `count` nodes.
abbrev pub NodeFits : ℕ → Node → Type 0
NodeFits count n =
    (n.parent < count)
    × (n.mode < 2 ^ 32)
    × (n.nlink < 2 ^ 64)
    × (n.mtime_sec < 2 ^ 64)
    × KindFits count n.kind

abbrev pub kept_node : Node → Node
kept_node n = record n { kind = kept_kind n.kind }

kind_tag-lt : (k : NodeKind) → kind_tag k < 256
kind_tag-lt (dir _) = omega arith
kind_tag-lt (file _) = omega arith
kind_tag-lt (chunked _) = omega arith
kind_tag-lt (symlink _) = omega arith
kind_tag-lt (char_dev _) = omega arith

node_lem :
    (count : ℕ) (n : Node)
    → count ≤ 4_000_000
    → NodeFits count n
    → Reads (read_node snapshot_version count) (node_image n) (kept_node n)
unfolding read_node node_image
node_lem count n small h =
    let (parent, mode, nlink, mtime, kind) = h in
    let inside : leb count n.parent ≡ false = ground (arith, parent) in
    Reads-bind _ (Reads-number 8 n.parent (omega (arith, parent))) (
      Reads-bind _ (Reads-index n.parent (omega (arith, parent))) (
        Reads-bind _ (Reads-number 4 n.mode mode) (
          Reads-bind _ (Reads-number 8 n.nlink nlink) (
            Reads-bind _ (Reads-number 8 n.mtime_sec mtime) (
              rw (kind_parts n.kind) (
                Reads-bind _ (Reads-number 1 (kind_tag n.kind) (kind_tag-lt n.kind)) (
                  Reads-map _ (kind_lem count n.kind small kind)
                    (Reads-fail_if _ inside (Reads-pure (kept_node n))))))))))

pub nodes_lem :
    (count : ℕ) (nodes : List Node)
    → count ≤ 4_000_000
    → All (NodeFits count) nodes
    → Reads
        (read_nodes snapshot_version count (length nodes))
        (nodes_image nodes)
        (map kept_node nodes)
unfolding read_nodes nodes_image
nodes_lem count [] small h = Reads-pure []
nodes_lem count (n ∷ nodes) small h =
    Reads-bind _ (node_lem count n small h.0) (
      Reads-map _ (nodes_lem count nodes small h.1)
        (Reads-pure (kept_node n ∷ map kept_node nodes)))

abbrev pub RootFits : Option Hash → Type 0
RootFits none = Unit {0}
RootFits (some h) = length h ≡ 32

pub root_lem : (r : Option Hash) → RootFits r → Reads (read_root snapshot_version) (root_image r) r
unfolding read_root root_image root_of_tag le_bytes
root_lem none h = Reads-map _ (Reads-number 1 0 (omega arith)) (Reads-pure none)
root_lem (some r) h =
    Reads-bind _ (Reads-number 1 1 (omega arith))
      (Reads-map _ (Reads-taken 32 r h) (Reads-pure (some r)))

-- Every node takes its 29 bytes.
length-kind_image : (k : NodeKind) → 1 ≤ length (kind_image k)
unfolding kind_image
length-kind_image (dir _) = omega arith
length-kind_image (file _) = omega arith
length-kind_image (chunked _) = omega arith
length-kind_image (symlink _) = omega arith
length-kind_image (char_dev _) = omega arith

length-node_image : (n : Node) → 29 ≤ length (node_image n)
unfolding node_image le_bytes
length-node_image n = omega (arith, length-kind_image n.kind)

pub length-nodes_image : (nodes : List Node) → length nodes * 29 ≤ length (nodes_image nodes)
unfolding nodes_image
length-nodes_image [] = omega arith
length-nodes_image (n ∷ nodes) = omega (
  arith,
  length-append (node_image n) (nodes_image nodes),
  length-node_image n,
  length-nodes_image nodes,
)
