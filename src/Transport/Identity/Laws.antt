-- ===== src/Transport/Identity/Laws.antt =====
-- The identity is stable: it is made once, and what is there is not written over.
use merkle_lan_sync.Base.{
  ℕ, ◌≡◌, ◌≢◌, refl, sym, ap, ◌∙◌, arith, Bool, true, false, Option, none, some, List, [], ◌∷◌, ok,
  ◌⊎◌, inl, inr, Result-cases,
}
use merkle_lan_sync.Transport.Identity.{
  File, absent, unreadable, holds, Dir, Error, Identity, Attempt, write_file_atomic, Library,
  of_chain, identity_from_pem, generate_identity, write_both, persist_encoded, first_cert,
  persist_identity, persisted, create_identity, from_files, load_or_create_identity,
}

-- A file that is written at once holds what it did, or all of the new content.
pub write_file_atomic_whole :
    (a : Attempt) (content : List ℕ) (file : File)
    → (write_file_atomic a content file ≡ (file, false))
      ⊎ (write_file_atomic a content file ≡ (holds content, true))
unfolding write_file_atomic
write_file_atomic_whole a content file = ground arith

module _ (sha256 : List ℕ → List ℕ) (lib : Library) where
  from_files_keeps :
      (made : Option (List ℕ × List ℕ)) (for_key for_cert : Attempt) (cert key : File) (d : Dir)
      → (cert ≢ absent) ⊎ (key ≢ absent)
      → (from_files sha256 lib made for_key for_cert cert key d).0 ≡ d
  unfolding from_files
  from_files_keeps made for_key for_cert (holds cert) (holds key) d trace = refl
  from_files_keeps made for_key for_cert (holds cert) absent d trace = refl
  from_files_keeps made for_key for_cert (holds cert) unreadable d trace = refl
  from_files_keeps made for_key for_cert absent (holds key) d trace = refl
  from_files_keeps made for_key for_cert absent unreadable d trace = refl
  from_files_keeps made for_key for_cert unreadable key d trace = refl
  from_files_keeps made for_key for_cert absent absent d (inl here) = absurd (here refl)
  from_files_keeps made for_key for_cert absent absent d (inr here) = absurd (here refl)

  -- A directory that has a trace of an identity, in either file, is never written: what is there is
  -- loaded, or the call fails. A new identity, which would have to be paired again, is made in an
  -- empty directory alone.
  pub load_or_create_identity_keeps :
      (can_make : Bool) (made : Option (List ℕ × List ℕ)) (for_key for_cert : Attempt) (d : Dir)
      → (d.cert ≢ absent) ⊎ (d.key ≢ absent)
      → (load_or_create_identity sha256 lib can_make made for_key for_cert d).0 ≡ d
  unfolding load_or_create_identity
  load_or_create_identity_keeps false made for_key for_cert d trace = refl
  load_or_create_identity_keeps true made for_key for_cert d trace =
      from_files_keeps made for_key for_cert d.cert d.key d trace

  -- What a successful run has written of the identity that it made.
  written_both :
      (for_key for_cert : Attempt) (cert key : List ℕ) (d d' : Dir)
      → write_both sha256 lib for_key for_cert cert key d ≡ (d', none)
      → d' ≡ record { cert = holds cert; key = holds key }
  unfolding write_both
  written_both for_key for_cert cert key d d' e = ground (
    arith,
    write_file_atomic_whole for_key key d.key,
    write_file_atomic_whole for_cert cert d.cert,
  )

  persisted_done :
      (i i' : Identity) (r : Dir × Option Error) (d' : Dir)
      → persisted sha256 lib i r ≡ (d', ok i')
      → (r ≡ (d', none)) × (i ≡ i')
  unfolding persisted
  persisted_done i i' (d, none) d' e = (cc, cc)
  persisted_done i i' (d, some x) d' e = cc

  persisted_files :
      (for_key for_cert : Attempt) (cert key : Option (List ℕ)) (d d' : Dir)
      → persist_encoded sha256 lib for_key for_cert cert key d ≡ (d', none)
      → (c : List ℕ) × (k : List ℕ) × (cert ≡ some c)
        × (key ≡ some k)
        × (d' ≡ record { cert = holds c; key = holds k })
  unfolding persist_encoded
  persisted_files for_key for_cert none key d d' e = cc
  persisted_files for_key for_cert (some c) none d d' e = cc
  persisted_files for_key for_cert (some c) (some k) d d' e =
      (c, k, refl, refl, written_both for_key for_cert c k d d' e)

  generated_of :
      (made : Option (List ℕ × List ℕ)) (i : Identity)
      → generate_identity sha256 lib made ≡ ok i
      → (der : List ℕ) × (lib.parses der ≡ true)
        × (made ≡ some (der, i.private_key))
        × (i.chain ≡ der ∷ [])
        × (of_chain sha256 lib (der ∷ []) i.private_key ≡ ok i)
  unfolding generate_identity of_chain
  generated_of none i e = cc
  generated_of (some (der, key)) i e = (der, ground arith, ground arith, ground arith, ground arith)

  pem_lem :
      (cert key : List ℕ) (chain : List (List ℕ)) (private_key : List ℕ)
      → lib.x509_key_pair cert key ≡ some (chain, private_key)
      → identity_from_pem sha256 lib cert key ≡ of_chain sha256 lib chain private_key
  unfolding identity_from_pem
  pem_lem cert key chain private_key e = rw (identity_from_pem, e) refl

  loaded_lem :
      (made : Option (List ℕ × List ℕ)) (for_key for_cert : Attempt) (c k : List ℕ)
      (cert key : File) (d : Dir) (i : Identity)
      → cert ≡ holds c
      → key ≡ holds k
      → identity_from_pem sha256 lib c k ≡ ok i
      → from_files sha256 lib made for_key for_cert cert key d ≡ (d, ok i)
  unfolding from_files
  loaded_lem made for_key for_cert c k cert key d i ec ek read = rw (ec, ek, read) refl

  module _ (matches : List ℕ → List ℕ → Type 0)
      (reads : (der key c k : List ℕ)
        → lib.parses der ≡ true
        → matches der key
        → lib.cert_pem der ≡ some c
        → lib.key_pem key ≡ some k
        → lib.x509_key_pair c k ≡ some (der ∷ [], key)) where
    created_again :
        (for_key for_cert : Attempt) (made : Option (List ℕ × List ℕ)) (d d' : Dir) (i : Identity)
        → ((der key : List ℕ) → made ≡ some (der, key) → matches der key)
        → create_identity sha256 lib for_key for_cert (generate_identity sha256 lib made) d
          ≡ (d', ok i)
        → (c : List ℕ) × (k : List ℕ) × (d' ≡ record { cert = holds c; key = holds k })
          × (identity_from_pem sha256 lib c k ≡ ok i)
    unfolding create_identity persist_identity first_cert
    created_again for_key for_cert made d d' i fit e =
        elim (Result-cases (generate_identity sha256 lib made)) [
          | inr (x, failed) ↦ absurd (ground (arith, failed))
          | inl (i', built) ↦
              let e' : persisted sha256 lib i' (persist_identity sha256 lib for_key for_cert i' d)
                  ≡ (d', ok i) =
                ground (arith, built) in
              let (stored, same) =
                persisted_done i' i (persist_identity sha256 lib for_key for_cert i' d) d' e' in
              let (der, parsed, from_source, chain, back) = generated_of made i' built in
              let (c, k, ec, ek, files) =
                persisted_files for_key for_cert (lib.cert_pem (first_cert sha256 lib i'.chain))
                  (lib.key_pem i'.private_key) d d' stored in
              let pem : lib.cert_pem der ≡ some c = ground (arith, ec, chain) in
              (
                c,
                k,
                files,
                pem_lem c k (der ∷ []) i'.private_key (
                      reads der i'.private_key c k parsed (fit der i'.private_key from_source) pem
                        ek)
                    ∙ back
                    ∙ ap ok same,
              )
        ]

    from_files_again :
        (made made' : Option (List ℕ × List ℕ)) (for_key for_cert key' cert' : Attempt)
        (cert key : File) (d d' : Dir) (i : Identity)
        → ((der key : List ℕ) → made ≡ some (der, key) → matches der key)
        → cert ≡ d.cert
        → key ≡ d.key
        → from_files sha256 lib made for_key for_cert cert key d ≡ (d', ok i)
        → from_files sha256 lib made' key' cert' d'.cert d'.key d' ≡ (d', ok i)
    unfolding from_files
    from_files_again made made' for_key for_cert key' cert' (holds c) (holds k) d d' i fit ec ek e =
        let dir : d ≡ d' = ap (λ p. p.0) e in
        loaded_lem made' key' cert' c k d'.cert d'.key d' i (ap (λ x. x.cert) (sym dir) ∙ sym ec)
          (ap (λ x. x.key) (sym dir) ∙ sym ek) (ap (λ p. p.1) e)
    from_files_again made made' for_key for_cert key' cert' absent absent d d' i fit ec ek e =
        let (c, k, files, read) = created_again for_key for_cert made d d' i fit e in
        loaded_lem made' key' cert' c k d'.cert d'.key d' i (ap (λ x. x.cert) files)
          (ap (λ x. x.key) files) read
    from_files_again made made' for_key for_cert key' cert' (holds c) absent d d' i fit ec ek e = cc
    from_files_again made made' for_key for_cert key' cert' (holds c) unreadable d d' i fit ec ek
          e =
        cc
    from_files_again made made' for_key for_cert key' cert' absent (holds k) d d' i fit ec ek e = cc
    from_files_again made made' for_key for_cert key' cert' absent unreadable d d' i fit ec ek e =
        cc
    from_files_again made made' for_key for_cert key' cert' unreadable key d d' i fit ec ek e = cc

    -- An identity that a run got is the one that every later run gets, with nothing written: made once,
    -- or loaded, it is loaded again from the directory that the run left. It is relied on that
    -- a certificate is made for its key, and that `X509KeyPair` reads the PEM forms of a certificate that
    -- parses and of the key that it is made for back.
    pub load_or_create_identity_again :
        (can_make : Bool) (made made' : Option (List ℕ × List ℕ))
        (for_key for_cert key' cert' : Attempt) (d d' : Dir) (i : Identity)
        → ((der key : List ℕ) → made ≡ some (der, key) → matches der key)
        → load_or_create_identity sha256 lib can_make made for_key for_cert d ≡ (d', ok i)
        → load_or_create_identity sha256 lib true made' key' cert' d' ≡ (d', ok i)
    unfolding load_or_create_identity
    load_or_create_identity_again false made made' for_key for_cert key' cert' d d' i fit e = cc
    load_or_create_identity_again true made made' for_key for_cert key' cert' d d' i fit e =
        from_files_again made made' for_key for_cert key' cert' d.cert d.key d d' i fit refl refl e
