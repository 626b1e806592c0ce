-- ===== src/Client/RoundTrip.antt =====
-- src/client/write.rs and src/client/read.rs together: what a client reads after an insertion.
use mathlib.Core.Logic.{ite, if_pos, if_neg}
use rdmas.Base.{
  ℕ, ◌≡◌, refl, sym, ap, subst, ◌∙◌, ◌≢◌, ◌⊎◌, inl, inr, false, true, List, Option, some,
  Bool-cases,
}
use rdmas.Base.Run.{Run, ok, panic}
use rdmas.Base.Result.{done, is_power_of_two}
use rdmas.Layout.LockWord.{inline}
use rdmas.Layout.Bucket.{HashedKey}
use rdmas.Extent.Region.{LargeObjectRegion}
use rdmas.Cuckoo.Defs
use rdmas.Cuckoo.Defs.{CuckooTable, LookupResult, h1, h2, is_live, lookup, pack_body, is_free}
use rdmas.Cuckoo.View.{slot, IsValid}
use rdmas.Cuckoo.Chain.{HashedKey-discrete}
use rdmas.Cuckoo.Insert.{entry, insert-Ends}
use rdmas.Cuckoo.Lookup.{found, lookup-insert, Ends-Binds}
use rdmas.Client.Write.{Store, inserted, table_full, inline_body, max_kick, insert}
use rdmas.Client.Write.Plain.{AllPlain}
use rdmas.Client.Write.Kick.{store_of}
use rdmas.Client.Write.Agrees.{insert-agrees, client_first, client_second}
use rdmas.Client.Read.{ReadResult, get}
use rdmas.Client.Read.Agrees.{fetch, get-lookup}

ok-injective :
    {l l' : Option LookupResult} → ◌≡◌ {A = Run (Option LookupResult)} (ok l) (ok l') → l ≡ l'
ok-injective {l} e = ap pick e
  where
    pick : Run (Option LookupResult) → Option LookupResult
    pick (ok o) = o
    pick panic = l

-- On a plain table, what a lookup returns decides what a read returns.
get-of_lookup :
    (t : CuckooTable) (large_objects : Option LargeObjectRegion) (k : HashedKey)
    (l : Option LookupResult)
    → IsValid t
    → AllPlain t
    → is_power_of_two t.bucket_count ≡ true
    → k.hash ≢ 0
    → lookup t k ≡ ok l
    → get k t.buckets large_objects t.bucket_count ≡ ok (done (fetch large_objects l))
get-of_lookup t large_objects k l v plain power nz e =
    let (l', looked, read) =
      get-lookup t k large_objects v power nz (plain (h1 t k.hash)).unlocked
        (plain (h2 t k.hash)).unlocked in
    read ∙ ap (λ o. ok (done (fetch large_objects o))) (ok-injective (sym looked ∙ e))

-- What a client reads of an inline value that was inserted.
abbrev pub as_written : List ℕ → ReadResult
as_written value = record { value = inline_body value; mode = inline }

fetch-found :
    (large_objects : Option LargeObjectRegion) (value : List ℕ)
    → fetch large_objects (some (found (pack_body value inline, inline))) ≡ some (as_written value)
unfolding fetch found pack_body inline_body
fetch-found large_objects value = refl

module _ (t t' : CuckooTable) (v : IsValid t) (plain : AllPlain t) (plain' : AllPlain t')
    (large_objects : Option LargeObjectRegion) (key : HashedKey) (value : List ℕ)
    (power : is_power_of_two t.bucket_count ≡ true) (same : t'.bucket_count ≡ t.bucket_count)
    (nz : key.hash ≢ 0) (server : Defs.insert t key value inline ≡ ok (t', done tt)) where
  valid' : IsValid t'
  valid' = elim (insert-Ends t key value inline v) [
    | inl (zero_hash, _) ↦ absurd (nz zero_hash)
    | inr ends ↦
        (Ends-Binds t t' (entry key value inline) (Defs.insert t key value inline) ends server).0
  ]

  read' :
      (k : HashedKey) (l : Option LookupResult)
      → k.hash ≢ 0
      → lookup t' k ≡ ok l
      → get k t'.buckets large_objects t.bucket_count ≡ ok (done (fetch large_objects l))
  read' k l nzk e =
      subst (λ n. get k t'.buckets large_objects n ≡ ok (done (fetch large_objects l))) same
        (get-of_lookup t' large_objects k l valid' plain' (rw same power) nzk e)

  reads :
      (k : HashedKey)
      → k.hash ≢ 0
      → get k t'.buckets large_objects t.bucket_count
        ≡ ite
            (HashedKey-discrete k key)
            (ok (done (some (as_written value))))
            (get k t.buckets large_objects t.bucket_count)
  reads k nzk = elim (HashedKey-discrete k key) [
    | yes here ↦ rw (if_pos _ here) (
        read' k (some (found (pack_body value inline, inline))) nzk (
          lookup-insert t t' key value inline v nz server k nzk
          ∙ if_pos (HashedKey-discrete k key) here _ (lookup t k))
        ∙ ap (λ o. ok (done o)) (fetch-found large_objects value))
    | no other ↦ rw (if_neg _ other) (
        let (l, looked, read) =
          get-lookup t k large_objects v power nzk (plain (h1 t k.hash)).unlocked
            (plain (h2 t k.hash)).unlocked in
        read' k l nzk (
          lookup-insert t t' key value inline v nz server k nzk
          ∙ if_neg (HashedKey-discrete k key) other
              (ok (some (found (pack_body value inline, inline)))) _
          ∙ looked)
        ∙ sym read)
  ]

-- On a valid table of a power of two of inline entries, none of them locked, with the server's bound of 16 on kicks, a
-- client inserts a key with a non-zero hash that the table does not hold, inline. The insertion never panics nor fails.
-- If it says that the key is inserted, a read of the key returns the value, padded with zeros or cut to 32 bytes, and a
-- read of any other key with a non-zero hash returns what it did before. It says that the table is full only when both
-- slots of the key are occupied.
pub get-insert :
    (t : CuckooTable) (large_objects : Option LargeObjectRegion) (key : HashedKey) (value : List ℕ)
    → IsValid t
    → AllPlain t
    → t.max_kick ≡ max_kick
    → is_power_of_two t.bucket_count ≡ true
    → key.hash ≢ 0
    → is_live (slot t (h1 t key.hash)) key.hash key.digest ≡ false
    → is_live (slot t (h2 t key.hash)) key.hash key.digest ≡ false
    → (s' : Store) × (((at : ℕ) × (insert key value inline (store_of t large_objects) t.bucket_count
            ≡ ok (s', done (inserted at)))
          × ((k : HashedKey)
              → k.hash ≢ 0
              → get k s'.buckets s'.large_objects t.bucket_count
                ≡ ite
                    (HashedKey-discrete k key)
                    (ok (done (some (as_written value))))
                    (get k t.buckets large_objects t.bucket_count)))
        ⊎ ((insert key value inline (store_of t large_objects) t.bucket_count
              ≡ ok (s', done table_full))
            × (is_free (slot t (h1 t key.hash)) ≡ false)
            × (is_free (slot t (h2 t key.hash)) ≡ false)))
get-insert t large_objects key value v plain kicks power nz dead dead' =
    let (t', same, plain', outcome) =
      insert-agrees t large_objects key value v plain kicks nz dead dead' in
    (
      store_of t' large_objects,
      elim outcome [
        | inl (server, at, client) ↦
            inl (at, client, reads t t' v plain plain' large_objects key value power same nz server)
        | inr (server, client) ↦ inr (client, not_first t' client, not_second t' client)
      ],
    )
  where
    full : CuckooTable → Type 0
    full t' =
        insert key value inline (store_of t large_objects) t.bucket_count
        ≡ ok (store_of t' large_objects, done table_full)

    not_first : (t' : CuckooTable) → full t' → is_free (slot t (h1 t key.hash)) ≡ false
    not_first t' client = elim (Bool-cases (is_free (slot t (h1 t key.hash)))) [
      | inl free ↦ cc (client_first t v plain large_objects key value free, client)
      | inr taken ↦ taken
    ]

    not_second : (t' : CuckooTable) → full t' → is_free (slot t (h2 t key.hash)) ≡ false
    not_second t' client = elim (Bool-cases (is_free (slot t (h2 t key.hash)))) [
      | inl free ↦
          cc (client_second t v plain large_objects key value (not_first t' client) free, client)
      | inr taken ↦ taken
    ]
