-- ===== src/Reconcile/Blocks/Verified.antt =====
-- Whatever a source answers, no file is replaced but by the content that was asked for.
use merkle_lan_sync.Base.{
  ℕ, zero, suc, ◌+◌, ◌<◌, ◌^◌, ◌≡◌, refl, sym, ◌∙◌, arith, Bool, true, false, not, Option, none,
  some, List, ◌++◌, Result, ok, err, bind_ok, length, length-append, if◌then◌else◌, ◌==◌, bytes_eq,
  bytes_eq_iff,
}
use merkle_lan_sync.Protocol.Messages.{Response}
use merkle_lan_sync.Merkle.FileInfo.{FileInfo}
use merkle_lan_sync.Reconcile.Transfer.{num_blocks, block_offset, block_len, block_len_lem}
use merkle_lan_sync.Reconcile.Blocks.{
  Entry, contents, Error, accept, Source, fetch_from, fetch_over_wire, Attempt, commit, filled,
  atomic_write_verify,
}

length-accept :
    (len : ℕ) (r : Response) (chunk : List ℕ) → accept len r ≡ ok chunk → length chunk ≡ len
unfolding accept
length-accept len r chunk e = ground arith

length-fetch_from :
    (source : Source) (size i left pos : ℕ) (bytes : List ℕ)
    → size < 2 ^ 63
    → i + left ≡ num_blocks size
    → pos ≡ (if left == 0 then size else block_offset i)
    → fetch_from source size i left ≡ ok bytes
    → pos + length bytes ≡ size
unfolding fetch_from
length-fetch_from source size i zero pos bytes small all here e = ground arith
length-fetch_from source size i (suc left) pos bytes small all here e =
    let (r, given, e₁) = bind_ok (source (block_offset i) (block_len size i)) _ bytes e in
    let (chunk, taken, e₂) = bind_ok (accept (block_len size i) r) _ bytes e₁ in
    let (rest, later, e₃) = bind_ok (fetch_from source size (suc i) left) _ bytes e₂ in
    let len : ℕ = block_len size i in
    let next : block_offset i + len ≡ (if left == 0 then size else block_offset (suc i)) =
      ground (arith, block_len_lem size i small (omega arith)) in
    let after =
      length-fetch_from source size (suc i) left (block_offset i + len) rest small (omega arith)
        next later in
    let first = length-accept len r chunk taken in
    let parts : length chunk + length rest ≡ length bytes =
      sym (length-append {0} chunk rest) ∙ joined chunk rest bytes e₃ in
    let now : pos ≡ block_offset i = ground arith in omega arith
  where
    joined :
        (c r b : List ℕ)
        → ◌≡◌ {A = Result Error (List ℕ)} (ok (c ++ r)) (ok b)
        → length (c ++ r) ≡ length b
    joined c r b h = cc

start_lem : (size : ℕ) → size < 2 ^ 63 → 0 ≡ (if num_blocks size == 0 then size else block_offset 0)
unfolding num_blocks block_offset
start_lem size small = ground arith

length-fetch_over_wire :
    (source : Source) (leaf : FileInfo) (bytes : List ℕ)
    → leaf.size < 2 ^ 63
    → fetch_over_wire source leaf ≡ ok bytes
    → length bytes ≡ leaf.size
unfolding fetch_over_wire
length-fetch_over_wire source leaf bytes small e =
    let all =
      length-fetch_from source leaf.size 0 (num_blocks leaf.size) 0 bytes small (omega arith)
        (start_lem leaf.size small) e in
    omega arith

module _ (sha256 : List ℕ → List ℕ) where
  -- What is at a path after a fetch, with the error.
  abbrev pub IsVerified : FileInfo → Entry → Entry × Option Error → Type 0
  IsVerified leaf dst (after, some e) = after ≡ dst
  IsVerified leaf dst (after, none) =
      (bytes : List ℕ) × (after ≡ contents bytes)
      × (sha256 bytes ≡ leaf.content_hash)
      × (length bytes ≡ leaf.size)

  guarded :
      (leaf : FileInfo) (dst : Entry) (b : Bool) (e : Error) (r : Entry × Option Error)
      → (b ≡ true → IsVerified leaf dst r)
      → IsVerified leaf dst (if not b then (dst, some e) else r)
  guarded leaf dst false e r h = refl
  guarded leaf dst true e r h = h refl

  commit-IsVerified :
      (a : Attempt) (leaf : FileInfo) (bytes : List ℕ) (dst : Entry)
      → length bytes ≡ leaf.size
      → IsVerified leaf dst (commit sha256 a leaf.content_hash bytes dst)
  unfolding commit
  commit-IsVerified a leaf bytes dst size =
      guarded leaf dst (bytes_eq (sha256 bytes) leaf.content_hash) _ _ (λ same.
        guarded leaf dst a.syncs _ _ (λ _. guarded leaf dst a.closes _ _ (λ _.
          guarded leaf dst a.renames _ _
            (λ _. (bytes, refl, (bytes_eq_iff (sha256 bytes) leaf.content_hash).0 same, size)))))

  filled-IsVerified :
      (a : Attempt) (leaf : FileInfo) (fill : Result Error (List ℕ)) (dst : Entry)
      → ((bytes : List ℕ) → fill ≡ ok bytes → length bytes ≡ leaf.size)
      → IsVerified leaf dst (filled sha256 a leaf.content_hash fill dst)
  unfolding filled
  filled-IsVerified a leaf (err e) dst size = refl
  filled-IsVerified a leaf (ok bytes) dst size =
      commit-IsVerified a leaf bytes dst (size bytes refl)

  -- Whatever a source answers, and wherever the write is broken off, the path holds what it did and
  -- an error is reported, or it holds bytes of the leaf's size whose hash is the leaf's. The size is
  -- below 2 ^ 63.
  pub fetch_over_wire-IsVerified :
      (a : Attempt) (source : Source) (leaf : FileInfo) (dst : Entry)
      → leaf.size < 2 ^ 63
      → IsVerified leaf dst
          (atomic_write_verify sha256 a leaf.content_hash (fetch_over_wire source leaf) dst)
  unfolding atomic_write_verify
  fetch_over_wire-IsVerified a source leaf dst small = guarded leaf dst a.makes_dir _ _ (λ _.
      guarded leaf dst a.creates _ _ (λ _.
        filled-IsVerified a leaf (fetch_over_wire source leaf) dst
          (λ bytes e. length-fetch_over_wire source leaf bytes small e)))
