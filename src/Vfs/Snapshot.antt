-- ===== src/Vfs/Snapshot.antt =====
-- `Vfs::serialize` and `Vfs::deserialize` of vfs.rs: the binary image of a tree. A `usize` is that
-- of the browser build.
pub mod Reads
pub mod Restore
pub mod RoundTrip
use web_tos.Prelude.{
  ℕ, zero, suc, ◌+◌, ◌*◌, ◌%◌, ◌^◌, min, List, [], ◌∷◌, ◌++◌, Bool, true, false, not, ◌&&◌, ◌||◌,
  Option, none, some, if◌then◌else◌, ltb, leb, ◌==◌, is_empty, length, take, drop, any, Result, ok,
  err, map,
}
use web_tos.Prelude.Exec.{Exec, pure, raise, reads, fail_if, continue, ◌>>=◌, ◌>>◌}
use web_tos.Prelude.Bytes.{Bytes, bytes_eq, le_bytes, from_le_bytes}
use web_tos.Prelude.Reader.{ReaderOf, take_or, number_or}
use web_tos.Prelude.ByteMap.{ByteMap, insert}
use web_tos.Chunk.{ByteVec, ChunkedFile, LayoutError, Hash}
use web_tos.Vfs.{
  Vfs, Node, NodeKind, dir, file, chunked, symlink, char_dev, Dev, null_dev, zero_dev, tty_dev,
  random_dev, ptmx_dev,
}
use web_tos.Vfs.Storage.{usize_max}

abbrev pub snapshot_magic : Bytes
snapshot_magic = b'W' ∷ b'T' ∷ b'F' ∷ b'S' ∷ []

abbrev pub snapshot_version : ℕ
snapshot_version = 3

abbrev pub device_tag : Dev → ℕ
device_tag null_dev = 0
device_tag zero_dev = 1
device_tag tty_dev = 2
device_tag random_dev = 3
device_tag ptmx_dev = 5

unfoldable pub entries_image : ByteMap ℕ → Bytes
entries_image [] = []
entries_image ((name, child) ∷ entries) =
    le_bytes 2 (length name) ++ (name ++ (le_bytes 8 child ++ entries_image entries))

unfoldable pub hashes_image : List Hash → Bytes
hashes_image [] = []
hashes_image (h ∷ hashes) = h ++ hashes_image hashes

-- The match on the kind in `serialize`.
unfoldable pub kind_image : NodeKind → Bytes
kind_image (dir entries) = 1 ∷ (le_bytes 4 (length entries) ++ entries_image entries)
kind_image (file data_of) = 2 ∷ (le_bytes 8 (length data_of.items) ++ data_of.items)
kind_image (chunked f) =
    5
    ∷ (le_bytes 8 f.size
        ++ (le_bytes 4 f.chunk_size ++ (le_bytes 8 (length f.chunks) ++ hashes_image f.chunks)))
kind_image (symlink target) = 3 ∷ (le_bytes 2 (length target.items) ++ target.items)
kind_image (char_dev dev) = 4 ∷ device_tag dev ∷ []

unfoldable pub node_image : Node → Bytes
node_image n =
    le_bytes 8 n.parent
    ++ (le_bytes 4 n.mode ++ (le_bytes 8 n.nlink ++ (le_bytes 8 n.mtime_sec ++ kind_image n.kind)))

unfoldable pub nodes_image : List Node → Bytes
nodes_image [] = []
nodes_image (n ∷ nodes) = node_image n ++ nodes_image nodes

unfoldable pub root_image : Option Hash → Bytes
root_image none = 0 ∷ []
root_image (some h) = 1 ∷ h

-- `serialize`
unfoldable pub serialize : Vfs → Bytes
serialize v =
    snapshot_magic
    ++ (le_bytes 4 snapshot_version
        ++ (root_image v.manifest_root ++ (le_bytes 4 (length v.nodes) ++ nodes_image v.nodes)))

-- The messages of `deserialize`.
pub data ImageError : Type 0 where
  truncated not_an_image unsupported_version bad_root_tag implausible too_large bad_child bad_parent
        trailing no_manifest_root hash_table_too_large :
      ImageError
  unknown_device unknown_tag : ℕ → ImageError
  bad_layout : LayoutError → ImageError

-- `Reader`
abbrev pub Reader {ℓ} : Type ℓ → Type ℓ
Reader A = ReaderOf ImageError A

-- `Reader::take`
abbrev pub taken : ℕ → Reader Bytes
taken n = take_or truncated n

-- `Reader::u8` and its kin, by their width
abbrev pub number : ℕ → Reader ℕ
number w = number_or truncated w

-- `index`
unfoldable pub index : ℕ → Reader ℕ
index value = if ltb value (2 ^ 32) then pure value else raise too_large

unfoldable pub read_entries : ℕ → ℕ → ByteMap ℕ → Reader (ByteMap ℕ)
read_entries count zero entries = pure entries
read_entries count (suc left) entries = do
  len ← number 2
  name ← taken len
  value ← number 8
  child ← index value
  fail_if (leb count child) bad_child
  read_entries count left (insert name child entries)

abbrev pub stored : Bytes → ByteVec
stored items = record { items = items; capacity = length items }

unfoldable pub read_dir : ℕ → Reader NodeKind
read_dir count = do left ← number 4; entries ← read_entries count left []; pure (dir entries)

unfoldable pub read_file : Reader NodeKind
read_file = do value ← number 8; len ← index value; items ← taken len; pure (file (stored items))

unfoldable pub read_symlink : Reader NodeKind
read_symlink = do len ← number 2; items ← taken len; pure (symlink (stored items))

unfoldable pub device : ℕ → Reader Dev
device tag =
    if tag == 0
    then pure null_dev
    else if tag == 1
    then pure zero_dev
    else if tag == 2
    then pure tty_dev
    else if tag == 3
    then pure random_dev
    else if tag == 5
    then pure ptmx_dev
    else raise (unknown_device tag)

unfoldable pub read_device : Reader NodeKind
read_device = do tag ← number 1; dev ← device tag; pure (char_dev dev)

-- `as_chunks::<32>`, of so many chunks
unfoldable pub hash_table : ℕ → Bytes → List Hash
hash_table zero bytes = []
hash_table (suc n) bytes = take 32 bytes ∷ hash_table n (drop 32 bytes)

unfoldable pub layout : ℕ → ℕ → List Hash → Reader NodeKind
layout size chunk_size chunks = elim (web_tos.Chunk.new size chunk_size chunks) [
  | ok f ↦ pure (chunked f)
  | err e ↦ raise (bad_layout e)
]

unfoldable pub read_chunked : Reader NodeKind
read_chunked = do
  size ← number 8
  chunk_size ← number 4
  value ← number 8
  count ← index value
  fail_if (ltb usize_max (count * 32)) hash_table_too_large
  hashes ← taken (count * 32)
  layout size chunk_size (hash_table count hashes)

-- The match on the tag in `deserialize`.
unfoldable pub read_kind : ℕ → ℕ → ℕ → Reader NodeKind
read_kind version count tag =
    if tag == 1
    then read_dir count
    else if tag == 2
    then read_file
    else if tag == 3
    then read_symlink
    else if tag == 4
    then read_device
    else if tag == 5 && leb 2 version
    then read_chunked
    else raise (unknown_tag tag)

unfoldable pub read_node : ℕ → ℕ → Reader Node
read_node version count = do
  value ← number 8
  parent ← index value
  mode ← number 4
  nlink ← number 8
  mtime_sec ← number 8
  tag ← number 1
  kind ← read_kind version count tag
  fail_if (leb count parent) bad_parent
  pure (record { kind = kind; mode = mode; nlink = nlink; mtime_sec = mtime_sec; parent = parent })

unfoldable pub read_nodes : ℕ → ℕ → ℕ → Reader (List Node)
read_nodes version count zero = pure []
read_nodes version count (suc left) = do
  n ← read_node version count
  nodes ← read_nodes version count left
  pure (n ∷ nodes)

unfoldable pub root_of_tag : ℕ → Reader (Option Hash)
root_of_tag tag =
    if tag == 0
    then pure none
    else if tag == 1
    then (taken 32 >>= λ h. pure (some h))
    else raise bad_root_tag

unfoldable pub read_root : ℕ → Reader (Option Hash)
read_root version = if leb 3 version then (number 1 >>= λ tag. root_of_tag tag) else pure none

abbrev pub is_chunked : Node → Bool
is_chunked n = elim n.kind [ chunked _ ↦ true | _ ↦ false ]

abbrev pub min_node_bytes : ℕ
min_node_bytes = 29

unfoldable pub read_image : Reader Vfs
read_image = do
  magic ← taken 4
  fail_if (not (bytes_eq magic snapshot_magic)) not_an_image
  version ← number 4
  fail_if (not (leb 1 version && leb version snapshot_version)) unsupported_version
  manifest_root ← read_root version
  count ← number 4
  fail_if (count == 0 || ltb 4_000_000 count) implausible
  reads (λ r.
      if ltb (length r) (min (count * min_node_bytes) usize_max) then err implausible else ok tt)
  nodes ← read_nodes version count count
  reads (λ r. if is_empty r then ok tt else err trailing)
  fail_if (elim manifest_root [ none ↦ any is_chunked nodes | some h ↦ false ]) no_manifest_root
  pure (record {
    nodes = nodes;
    chunks = [];
    manifest_root = manifest_root;
    storage_budget = none;
    unlinked = [];
  })

-- `deserialize`
unfoldable pub deserialize : Bytes → Result ImageError Vfs
deserialize bytes = (read_image bytes).0
