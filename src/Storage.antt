-- ===== src/Storage.antt =====
-- src/infrastructure/storage/s3-object-storage.ts, on what the client of AWS does.
use Prim.Native.String
use Prim.Native.String.{String}
use backend_java_spring_boot.Prelude.{ℕ, ◌+◌, ◌*◌, Bool}

-- `Config`
pub record StorageConfig : Type 0 where
  pub endpoint : String
  pub region : String
  pub access_key_id : String
  pub secret_access_key : String
  pub bucket : String
  pub public_url : String
  pub force_path_style : Bool

-- `PutObjectCommand`
pub record PutCommand : Type 0 where
  pub bucket : String
  pub key : String
  pub content_type : String
  pub content_length : ℕ

-- `PresignedPut`
pub record PresignedPut : Type 0 where
  pub url : String
  pub key : String
  pub expires_at : ℕ

-- The client, for the settings that it is made of
pub record Aws : Type 0 where
  -- `getSignedUrl`
  pub signed_url : StorageConfig → PutCommand → (expires_in_sec : ℕ) → String
  -- whether `HeadObjectCommand` is answered; it raises where there is no such object
  pub answers_head : StorageConfig → (bucket key : String) → Bool

module _ (aws : Aws) (cfg : StorageConfig) where
  -- `presignPut`, at a time
  abbrev pub presign_put :
      (now : ℕ) (key content_type : String) (size_max_bytes ttl_sec : ℕ) → PresignedPut
  presign_put now key content_type size_max_bytes ttl_sec =
      let command : PutCommand = record {
        bucket = cfg.bucket;
        key = key;
        content_type = content_type;
        content_length = size_max_bytes;
      } in
      record {
        url = aws.signed_url cfg command ttl_sec;
        key = key;
        expires_at = now + ttl_sec * 1000;
      }

  -- `headObject`
  abbrev pub head_object : String → Bool
  head_object key = aws.answers_head cfg cfg.bucket key

  -- `publicUrl`
  abbrev pub public_url : String → String
  public_url key = String.◌++◌ cfg.public_url (String.◌++◌ "/" key)
