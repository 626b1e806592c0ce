-- ===== src/Control/Tenant.antt =====
-- src/control/tenant.rs: keys of tenants. The hash `xxh64` is a parameter.
use rdmas.Base.{ℕ, ◌^◌, ◌-◌, bit_xor, List, ◌++◌}
use rdmas.Base.Bytes.{to_le_bytes}
use rdmas.Layout.Bucket.{HashedKey}

pub record TenantNamespace : Type 0 where
  pub tenant_id : ℕ

unfoldable pub hash_key : (List ℕ → ℕ → ℕ) → TenantNamespace → List ℕ → ℕ
hash_key xxh64 t key = xxh64 key t.tenant_id

unfoldable pub hashed_key : (List ℕ → ℕ → ℕ) → TenantNamespace → List ℕ → HashedKey
hashed_key xxh64 t key =
    let hash = xxh64 key t.tenant_id in
    let digest_hash = xxh64 key (bit_xor t.tenant_id (2 ^ 64 - 1)) in
    record { hash = hash; digest = to_le_bytes 8 hash ++ to_le_bytes 8 digest_hash }
