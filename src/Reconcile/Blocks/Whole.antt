-- ===== src/Reconcile/Blocks/Whole.antt =====
-- An honest source gives the whole file.
use merkle_lan_sync.Base.{
  ℕ, zero, suc, ◌+◌, ◌<◌, ◌≤◌, ◌^◌, ◌≡◌, refl, sym, ap, ◌∙◌, arith, true, List, [], ◌∷◌, ◌++◌, ok,
  length, take, drop, length-take, length-drop, take-append-drop, drop-drop, if◌then◌else◌, ◌==◌,
}
use merkle_lan_sync.Protocol.Messages.{Request, Response}
use merkle_lan_sync.Pathnorm.Canonical.{canonicalize_slash}
use merkle_lan_sync.Pathnorm.OsPath.{Target, to_os_path}
use merkle_lan_sync.Merkle.FileInfo.{FileInfo}
use merkle_lan_sync.Reconcile.Transfer.{
  num_blocks, validate_request, block_offset, block_len, validate_request-block, block_len_lem,
}
use merkle_lan_sync.Reconcile.Blocks.{
  contents, Disk, code_ok, decline, read_at, open_and_read, serve_entry, serve_named, serve_request,
  accept, Source, fetch_from, fetch_over_wire, chunk_request,
}

-- A source whose answers are the blocks of a file.
abbrev IsHonest : List ℕ → Source → Type 0
IsHonest file source =
    (i : ℕ)
    → i < num_blocks (length file)
    → (r : Response) × (source (block_offset i) (block_len (length file) i) ≡ ok r)
      × (r.code ≡ code_ok)
      × (r.chunk ≡ take (block_len (length file) i) (drop (block_offset i) file))

block_inside :
    (size i : ℕ) → size < 2 ^ 63 → i < num_blocks size → block_offset i + block_len size i ≤ size
unfolding num_blocks block_len block_offset
block_inside size i small below = ground arith

accept_lem :
    (len : ℕ) (r : Response) (chunk : List ℕ)
    → r.code ≡ code_ok
    → r.chunk ≡ chunk
    → length chunk ≡ len
    → accept len r ≡ ok chunk
unfolding accept
accept_lem len r chunk code same size = ground arith

drop_all : (xs : List ℕ) → drop (length xs) xs ≡ []
drop_all [] = refl
drop_all (x ∷ xs) = drop_all xs

-- Where the loop stands, the rest of the file is to come.
fetch_rest :
    (file : List ℕ) (source : Source) (i left pos : ℕ)
    → length file < 2 ^ 63
    → IsHonest file source
    → i + left ≡ num_blocks (length file)
    → pos ≡ (if left == 0 then length file else block_offset i)
    → fetch_from source (length file) i left ≡ ok (drop pos file)
unfolding fetch_from
fetch_rest file source i zero pos small honest all here = rw (here, drop_all file) refl
fetch_rest file source i (suc left) pos small honest all here =
    let now : pos ≡ block_offset i = ground arith in
    let below : i < num_blocks (length file) = omega arith in
    let (r, given, code, chunk) = honest i below in
    let inside = block_inside (length file) i small below in
    let len : ℕ = block_len (length file) i in
    let block : List ℕ = take len (drop (block_offset i) file) in
    let whole : length block ≡ len = omega (
      arith,
      length-take {0} len (drop (block_offset i) file),
      length-drop {0} (block_offset i) file,
      inside,
    ) in
    let next : block_offset i + len ≡ (if left == 0 then length file else block_offset (suc i)) =
      ground (arith, block_len_lem (length file) i small below) in
    let rest =
      fetch_rest file source (suc i) left (block_offset i + len) small honest (omega arith) next in
    let joined : block ++ drop (block_offset i + len) file ≡ drop (block_offset i) file =
      ap (λ t. block ++ t) (sym (drop-drop (block_offset i) len file))
      ∙ take-append-drop len (drop (block_offset i) file) in
    rw (given, accept_lem len r block code chunk whole, rest, joined, now) refl

module _ (nfc : List ℕ → List ℕ) (root : List ℕ) (target : Target) where
  serve_named_lem :
      (disk : Disk) (req : Request) (key file : List ℕ)
      → disk (to_os_path root key target) ≡ contents file
      → serve_named nfc root target disk disk req (ok key)
        ≡ serve_entry req (contents file) (contents file)
  unfolding serve_named
  serve_named_lem disk req key file there = ap (λ e. serve_entry req e e) there

  serve_request_lem :
      (disk : Disk) (req : Request) (key file : List ℕ)
      → canonicalize_slash nfc req.path ≡ ok key
      → disk (to_os_path root key target) ≡ contents file
      → serve_request nfc root target disk disk req
        ≡ serve_entry req (contents file) (contents file)
  unfolding serve_request
  serve_request_lem disk req key file named there =
      ap (serve_named nfc root target disk disk req) named ∙ serve_named_lem disk req key file there

  serve_file :
      (req : Request) (file : List ℕ)
      → validate_request req (length file) ≡ true
      → req.offset + req.len ≤ length file
      → let r = serve_entry req (contents file) (contents file) in
        (r.code ≡ code_ok) × (r.chunk ≡ take req.len (drop req.offset file))
  unfolding serve_entry open_and_read read_at decline
  serve_file req file valid inside = ground arith

  abbrev asked : Disk → FileInfo → (ℕ → ℕ) → Source
  asked disk leaf id offset len =
      ok (serve_request nfc root target disk disk (chunk_request (id offset) leaf offset len))

  asked-IsHonest :
      (disk : Disk) (leaf : FileInfo) (key file : List ℕ) (id : ℕ → ℕ)
      → canonicalize_slash nfc leaf.path ≡ ok key
      → disk (to_os_path root key target) ≡ contents file
      → length file < 2 ^ 63
      → IsHonest file (asked disk leaf id)
  unfolding chunk_request
  asked-IsHonest disk leaf key file id named there small i below =
      let req : Request =
        chunk_request (id (block_offset i)) leaf (block_offset i) (block_len (length file) i) in
      let answer = serve_request_lem disk req key file named there in
      let valid = validate_request-block req (length file) i small below refl refl in
      let (code, chunk) = serve_file req file valid (block_inside (length file) i small below) in
      (serve_entry req (contents file) (contents file), ap ok answer, code, chunk)

  start_lem :
      (size : ℕ) → size < 2 ^ 63 → 0 ≡ (if num_blocks size == 0 then size else block_offset 0)
  unfolding num_blocks block_offset
  start_lem size small = ground arith

  -- A puller that asks a source with the file for its leaf gets the whole file, byte for byte: every
  -- request of the loop passes the guard, every answer has the length that was asked for, and the
  -- blocks put together are the file. The leaf has the file's size, which is below 2 ^ 63, the path
  -- of the leaf is one that can be brought to a key, and the disk does not change meanwhile.
  pub fetch_over_wire-serve_request :
      (disk : Disk) (leaf : FileInfo) (key file : List ℕ) (id : ℕ → ℕ)
      → canonicalize_slash nfc leaf.path ≡ ok key
      → disk (to_os_path root key target) ≡ contents file
      → leaf.size ≡ length file
      → length file < 2 ^ 63
      → fetch_over_wire (asked disk leaf id) leaf ≡ ok file
  unfolding fetch_over_wire
  fetch_over_wire-serve_request disk leaf key file id named there size small =
      let source : Source = asked disk leaf id in
      let honest = asked-IsHonest disk leaf key file id named there small in
      ap (λ n. fetch_from source n 0 (num_blocks n)) size
      ∙ fetch_rest file source 0 (num_blocks (length file)) 0 small honest (omega arith)
          (start_lem (length file) small)
