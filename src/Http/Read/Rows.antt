-- ===== src/Http/Read/Rows.antt =====
-- The rows of a listing of signing keys and of artifacts, of src/http/client.c.
use tamga_c.Prelude.{ℕ, Option, none, some, leb, if◌then◌else◌, Bytes, codes}
use tamga_c.Prelude.Int.{ℤ}
use tamga_c.Prelude.Options.{◌>>=◌}
use tamga_c.Json.{
  Json, Doubles, object_get, as_string, as_int, is_null, array_len, array_at, json_type,
}
use tamga_c.Http.{Reply}
use tamga_c.Http.Read.{is_array, object_or_none, attributes_of, resource_at, artifacts}

-- tamga_response_signing_keys
unfoldable pub signing_keys : Reply → Option Json
unfolding json_type
signing_keys reply =
    let items = object_get reply.json (codes "data") in if is_array items then items else none

-- tamga_response_signing_key_count
unfoldable pub signing_key_count : Reply → ℕ
signing_key_count reply = array_len (signing_keys reply)

-- One row, with NULL for the time of retirement of a key that is active.
pub record SigningKeyRow : Type 0 where
  pub key_id : Bytes
  pub algorithm : Bytes
  pub public_key : Bytes
  pub status : Bytes
  pub created : Bytes
  pub retired : Option Bytes

unfoldable pub signing_key_row : Option Json → Option SigningKeyRow
signing_key_row resource = do
  let attributes = attributes_of resource
  key_id ← as_string (object_get resource (codes "id"))
  algorithm ← as_string (object_get attributes (codes "algorithm"))
  public_key ← as_string (object_get attributes (codes "publicKey"))
  status ← as_string (object_get attributes (codes "status"))
  created ← as_string (object_get attributes (codes "created"))
  some (record {
    key_id = key_id;
    algorithm = algorithm;
    public_key = public_key;
    status = status;
    created = created;
    retired = as_string (object_get attributes (codes "retired"));
  })

-- tamga_response_signing_key_at
unfoldable pub signing_key_at : Reply → ℕ → Option SigningKeyRow
signing_key_at reply index =
    let items = signing_keys reply in
    if leb (array_len items) index
    then none
    else signing_key_row (object_or_none (array_at items index))

pub record ArtifactRow : Type 0 where
  pub id : Bytes
  pub filename : Bytes
  pub filetype : Option Bytes
  pub platform : Option Bytes
  pub arch : Option Bytes
  pub status : Bytes

-- tamga_response_artifact_at
unfoldable pub artifact_at : Reply → ℕ → Option ArtifactRow
artifact_at reply index = do
  let resource = resource_at artifacts reply index
  let attributes = attributes_of resource
  id ← as_string (object_get resource (codes "id"))
  filename ← as_string (object_get attributes (codes "filename"))
  status ← as_string (object_get attributes (codes "status"))
  some (record {
    id = id;
    filename = filename;
    filetype = as_string (object_get attributes (codes "filetype"));
    platform = as_string (object_get attributes (codes "platform"));
    arch = as_string (object_get attributes (codes "arch"));
    status = status;
  })

pub record Integrity : Type 0 where
  pub checksum : Option Bytes
  pub signature : Option Bytes
  pub created : Bytes
  pub updated : Bytes

-- tamga_response_artifact_integrity_at
unfoldable pub artifact_integrity_at : Reply → ℕ → Option Integrity
artifact_integrity_at reply index = do
  let attributes = attributes_of (resource_at artifacts reply index)
  created ← as_string (object_get attributes (codes "created"))
  updated ← as_string (object_get attributes (codes "updated"))
  some (record {
    checksum = as_string (object_get attributes (codes "checksum"));
    signature = as_string (object_get attributes (codes "signature"));
    created = created;
    updated = updated;
  })

-- tamga_response_artifact_filesize_at
unfoldable pub artifact_filesize_at : Doubles → Reply → ℕ → Option ℤ
artifact_filesize_at d reply index =
    let value = object_get (attributes_of (resource_at artifacts reply index)) (codes "filesize") in
    if is_null value then none else as_int d value

-- tamga_response_artifact_download_url
unfoldable pub artifact_download_url : Reply → Option Bytes
artifact_download_url reply =
    as_string (object_get (attributes_of (resource_at artifacts reply 0)) (codes "redirectUrl"))
