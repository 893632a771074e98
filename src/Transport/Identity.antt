-- ===== src/Transport/Identity.antt =====
-- internal/transport/identity.go: the identity of the device, from its directory or made new. What
-- crypto/x509, encoding/pem and the random source do is given, and so is what each call to the
-- operating system answers. SHA-256 is a parameter.
pub mod Laws
use merkle_lan_sync.Base.{
  ℕ, Bool, true, false, not, Option, none, some, List, [], ◌∷◌, Result, ok, err, if◌then◌else◌,
}
use merkle_lan_sync.Protocol.DeviceId.{device_id_from_cert}

-- `os.ReadFile` of one file: it is not there, it cannot be read, or its bytes.
pub data File : Type 0 where
  absent unreadable : File
  holds : List ℕ → File

-- The configuration directory.
pub record Dir : Type 0 where
  pub cert : File
  pub key : File

pub data Error : Type 0 where
  no_dir inconsistent generate_failed : Error
  load_failed no_certificate parse_failed : Error
  encode_failed key_write_failed cert_write_failed : Error

-- A certificate chain in DER form with its private key, and the identity of its leaf.
pub record Identity : Type 0 where
  pub chain : List (List ℕ)
  pub private_key : List ℕ
  pub device_id : List ℕ

-- Which of the calls of `writeFileAtomic` succeed.
pub record Attempt : Type 0 where
  pub creates : Bool
  pub chmods : Bool
  pub writes : Bool
  pub syncs : Bool
  pub closes : Bool
  pub renames : Bool

-- The file afterwards, and whether the call succeeded. The temporary file is removed on the way
-- out, and the file itself is touched by the rename alone.
unfoldable pub write_file_atomic : Attempt → List ℕ → File → File × Bool
write_file_atomic a content file =
    if not a.creates
    then (file, false)
    else if not a.chmods
    then (file, false)
    else if not a.writes
    then (file, false)
    else if not a.syncs
    then (file, false)
    else if not a.closes
    then (file, false)
    else if not a.renames
    then (file, false)
    else (holds content, true)

-- `tls.X509KeyPair`, which gives the chain and the key, `x509.ParseCertificate` as a test, and the
-- PEM forms of a certificate and of a key, none where the encoding fails.
pub record Library : Type 0 where
  pub x509_key_pair : List ℕ → List ℕ → Option (List (List ℕ) × List ℕ)
  pub parses : List ℕ → Bool
  pub cert_pem : List ℕ → Option (List ℕ)
  pub key_pem : List ℕ → Option (List ℕ)

module _ (sha256 : List ℕ → List ℕ) (lib : Library) where
  unfoldable pub of_chain : List (List ℕ) → List ℕ → Result Error Identity
  of_chain [] key = err no_certificate
  of_chain (der ∷ more) key =
      if not (lib.parses der)
      then err parse_failed
      else ok (record {
        chain = der ∷ more;
        private_key = key;
        device_id = device_id_from_cert sha256 der;
      })

  unfoldable pub identity_from_pem : List ℕ → List ℕ → Result Error Identity
  identity_from_pem cert key = elim (lib.x509_key_pair cert key) [
    | none ↦ err load_failed
    | some (chain, private_key) ↦ of_chain chain private_key
  ]

  -- `GenerateIdentity` from the key and the certificate that the random source leads to, if any.
  unfoldable pub generate_identity : Option (List ℕ × List ℕ) → Result Error Identity
  generate_identity none = err generate_failed
  generate_identity (some (der, key)) =
      if not (lib.parses der)
      then err generate_failed
      else ok (record {
        chain = der ∷ [];
        private_key = key;
        device_id = device_id_from_cert sha256 der;
      })

  -- The key is written before the certificate.
  unfoldable pub write_both : Attempt → Attempt → List ℕ → List ℕ → Dir → Dir × Option Error
  write_both for_key for_cert cert key d =
      let (key_file, key_done) = write_file_atomic for_key key d.key in
      let (cert_file, cert_done) = write_file_atomic for_cert cert d.cert in
      if not key_done
      then (record d { key = key_file }, some key_write_failed)
      else if not cert_done
      then (record { cert = cert_file; key = key_file }, some cert_write_failed)
      else (record { cert = cert_file; key = key_file }, none)

  unfoldable pub persist_encoded :
      Attempt → Attempt → Option (List ℕ) → Option (List ℕ) → Dir → Dir × Option Error
  persist_encoded for_key for_cert none key d = (d, some encode_failed)
  persist_encoded for_key for_cert (some cert) none d = (d, some encode_failed)
  persist_encoded for_key for_cert (some cert) (some key) d = write_both for_key for_cert cert key d

  unfoldable pub first_cert : List (List ℕ) → List ℕ
  first_cert [] = []
  first_cert (der ∷ more) = der

  unfoldable pub persist_identity : Attempt → Attempt → Identity → Dir → Dir × Option Error
  persist_identity for_key for_cert i d =
      persist_encoded for_key for_cert (lib.cert_pem (first_cert i.chain))
        (lib.key_pem i.private_key) d

  unfoldable pub persisted : Identity → Dir × Option Error → Dir × Result Error Identity
  persisted i (d, none) = (d, ok i)
  persisted i (d, some e) = (d, err e)

  unfoldable pub create_identity :
      Attempt → Attempt → Result Error Identity → Dir → Dir × Result Error Identity
  create_identity for_key for_cert (err e) d = (d, err e)
  create_identity for_key for_cert (ok i) d = persisted i (persist_identity for_key for_cert i d)

  -- The `switch` on the two files that were read.
  unfoldable pub from_files :
      Option (List ℕ × List ℕ) → Attempt → Attempt → File → File → Dir → Dir × Result Error Identity
  from_files made for_key for_cert (holds cert) (holds key) d = (d, identity_from_pem cert key)
  from_files made for_key for_cert absent absent d =
      create_identity for_key for_cert (generate_identity made) d
  from_files made for_key for_cert (holds cert) absent d = (d, err inconsistent)
  from_files made for_key for_cert (holds cert) unreadable d = (d, err inconsistent)
  from_files made for_key for_cert absent (holds key) d = (d, err inconsistent)
  from_files made for_key for_cert absent unreadable d = (d, err inconsistent)
  from_files made for_key for_cert unreadable key d = (d, err inconsistent)

  -- `LoadOrCreateIdentity`; the first argument says whether the directory is there or can be made.
  unfoldable pub load_or_create_identity :
      Bool → Option (List ℕ × List ℕ) → Attempt → Attempt → Dir → Dir × Result Error Identity
  load_or_create_identity can_make made for_key for_cert d =
      if not can_make then (d, err no_dir) else from_files made for_key for_cert d.cert d.key d
